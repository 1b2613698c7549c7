-- ===== src/Tests/Pipeline.antt =====
-- The pipeline of the processor at concrete inputs.
use dae_pipeline_cpu.Prelude.{
  ◌/◌, ◌%◌, ◌*◌, ◌^◌, ◌≡◌, refl, arith, true, false, [], ◌∷◌, bit_and, some,
}
use dae_pipeline_cpu.Bus.{okay, ret}
use dae_pipeline_cpu.Soc.{Soc}
use dae_pipeline_cpu.Soc.Run.{IsRunning}
use dae_pipeline_cpu.Tests.World.{World, test_host}
use dae_pipeline_cpu.Tests.System.{listening, listening-IsRunning}
use dae_pipeline_cpu.Cpu.Types.{
  DecodedIr, InstToken, MemResp, zero_ir, zero_token, zero_row, fu_system, fu_load, fu_store,
  sys_ecall, sys_mret, sys_csr_rw, alu_sub, mem_len_1,
}
use dae_pipeline_cpu.Cpu.CsrFile
use dae_pipeline_cpu.Cpu.CsrFile.{
  CsrFile, CsrIn, csr_mscratch, mstatus_mie, mstatus_o, mtvec_o, mepc_o,
}
use dae_pipeline_cpu.Cpu.CsrFile.Traps
use dae_pipeline_cpu.Cpu.CsrFile.Traps.{Quiet}
use dae_pipeline_cpu.Cpu.Regfile
use dae_pipeline_cpu.Cpu.Scoreboard.{zero_scoreboard, source, issue_valid, rd_match}
use dae_pipeline_cpu.Cpu.MemStage.{
  TrapIn, stall, take_trap, take_halt, pre_halt, double_trap, async_cause, dmem_req, mem_out,
}
use dae_pipeline_cpu.Cpu.MemStage.Requests.{Proceeds}
use dae_pipeline_cpu.Cpu.ExeStage.{exe_out}
use dae_pipeline_cpu.Cpu.Frontend.{frontend_reset}
use dae_pipeline_cpu.Cpu.Backend.{
  Backend, BackendIn, backend_reset, backend_flush, redirect_valid, redirect_pc, exe_calc, ir_ready,
  issue_pkt,
}
use dae_pipeline_cpu.Cpu.Backend.Rows
use dae_pipeline_cpu.Cpu.Backend.Rows.{Describes, IsTracked, reset-IsTracked, run-IsTracked}
use dae_pipeline_cpu.Cpu.Backend.Operands.{first, all_retired, operand_lem}
use dae_pipeline_cpu.Cpu.Backend.Interrupts.{next}
use dae_pipeline_cpu.Cpu.Backend.Mret.{Commits, mret_trapped, handler_returns}
use dae_pipeline_cpu.Cpu.Top
use dae_pipeline_cpu.Cpu.Top.{Top, TopIn}
use dae_pipeline_cpu.Cpu.TbTop.{data_access, answer}
use dae_pipeline_cpu.Cpu.TbTop.StoreLoad.{store_load}
use dae_pipeline_cpu.Cpu.Lsu.{misaligned}
use dae_pipeline_cpu.Cpu.Lsu.Lanes.{extended}
use dae_pipeline_cpu.Cpu.Isa.{op, encode, IsInst}
use dae_pipeline_cpu.Cpu.Isa.Meaning.{meaning}
use dae_pipeline_cpu.Cpu.Isa.Exec.{Does, issued, fetched}
use dae_pipeline_cpu.Cpu.Isa.Exec.Each.{exec_lem}

abbrev no_resp : MemResp
no_resp = record { resp_valid = false; rdata = 0; error = false }

abbrev idle : BackendIn
idle = record {
  dmem_req_ready = true;
  dmem_resp = no_resp;
  msip = false;
  mtip = false;
  meip = false;
}

-- addi x5, x0, ... and an instruction that reads x5
abbrev writer : DecodedIr
writer = record zero_ir { rd_to_write = true; rd_idx = 5 }

abbrev reader : DecodedIr
reader = record zero_ir { rs1_use = true; rs1_idx = 5; seq_id = 1 }

run-IsTracked_example :
    IsTracked
      (Rows.run true false backend_reset ((idle, (writer, true)) ∷ (idle, (reader, true)) ∷ []))
run-IsTracked_example =
    run-IsTracked true false ((idle, (writer, true)) ∷ (idle, (reader, true)) ∷ []) backend_reset
      reset-IsTracked

abbrev written_token : InstToken
written_token = record zero_token { valid = true; ir = writer; rd_value = 42 }

-- The writer has reached the memory stage, its result ready.
abbrev forwarding : Backend
forwarding = record backend_reset {
  mem_q = written_token;
  sb = record zero_scoreboard {
    mem_row_q = record zero_row { valid = true; rd_to_write = true; rd_idx = 5; rd_ready = true };
  };
}

nothing : Describes zero_row zero_token
nothing = reset-IsTracked.exe

forwarding-IsTracked : IsTracked forwarding
forwarding-IsTracked = record {
  exe = nothing;
  mem = record {
    same_valid = refl;
    same_epoch = λ h. refl;
    same_seq_id = λ h. refl;
    same_killed = λ h. refl;
    same_write = λ h. refl;
    same_rd = λ h. refl;
  };
  wb = nothing;
  exe_not_ready = refl;
  mem_ready = λ h. refl;
}

operand_lem_example :
    (issue_pkt true true forwarding idle reader true).rs1_val
    ≡ Regfile.read (all_retired forwarding idle) 5
unfolding ir_ready issue_valid source rd_match stall mem_out take_trap take_halt pre_halt
    double_trap exe_out async_cause mstatus_o exe_calc
operand_lem_example =
    operand_lem true true forwarding idle reader true first forwarding-IsTracked refl
      (λ h. (refl, refl)) (λ h. (refl, refl)) (λ h. (refl, refl)) refl

abbrev mret_token : InstToken
mret_token = record zero_token {
  valid = true;
  ir = record zero_ir { pc = 0x80000420; fu_type = fu_system; sys_kind = sys_mret };
}

-- A handler ends while the timer is pending again.
abbrev returning : Backend
returning = record backend_reset {
  exe_q = mret_token;
  csr = record CsrFile.reset {
    mstatus_q = 0x80;
    mie_q = 0x80;
    mtvec_q = 0x80000400;
    mepc_q = 0x80000100;
  };
}

abbrev timer : BackendIn
timer = record idle { mtip = true }

returning-Commits : Commits returning idle
unfolding stall take_trap
returning-Commits = record {
  mret = record {
    alive = refl;
    unit = refl;
    kind = refl;
    legal = refl;
    fetched = refl;
    no_halt = refl;
  };
  goes = refl;
  no_trap = refl;
}

mret_trapped_example :
    let b1 = next true true returning idle zero_ir false in
    let b2 = next true true b1 timer zero_ir false in
    (redirect_valid returning idle ≡ true)
    × (redirect_pc returning idle ≡ mepc_o returning.csr)
    × (redirect_pc b1 timer ≡ mtvec_o returning.csr)
    × (mepc_o b2.csr ≡ 0x80000420 / 4 % 2 ^ 30 * 4)
unfolding CsrFile.mie_o CsrFile.mip_o mtvec_o
mret_trapped_example =
    mret_trapped true true returning idle returning-Commits zero_ir false timer zero_ir false
      (λ e. omega arith) (λ e. omega arith) refl

-- An `ecall` in MEM with its follower in EXE.
abbrev trapping : Top
trapping = record {
  frontend = frontend_reset 0;
  backend = record backend_reset {
    mem_q = record zero_token {
      valid = true;
      seq_id = 255;
      ir = record zero_ir {
        pc = 0x80000100;
        seq_id = 255;
        fu_type = fu_system;
        sys_kind = sys_ecall;
      };
    };
    exe_q = record zero_token { valid = true; ir = writer };
    csr = record CsrFile.reset { mstatus_q = 0x8; mtvec_q = 0x80000400 };
  };
}

abbrev quiet_in : TopIn
quiet_in = record { imem_req_ready = true; imem_resp = no_resp; back = idle }

abbrev calm : TrapIn
calm = record {
  csr_mstatus = 0;
  csr_mie = 0;
  csr_mip = 0;
  csr_mtvec_base = 0;
  last_step_entered_trap = false;
}

abbrev byte_store : InstToken
byte_store = record zero_token {
  valid = true;
  ir = record zero_ir { fu_type = fu_store; mem_len = mem_len_1 };
  mem_addr = 0x80000103;
  rs2_val = 0x12345681;
}

abbrev byte_load : InstToken
byte_load = record zero_token {
  valid = true;
  ir = record zero_ir { fu_type = fu_load; mem_len = mem_len_1; load_signext = true };
  mem_addr = 0x80000103;
}

store-Proceeds : Proceeds calm byte_store
unfolding take_trap take_halt pre_halt double_trap async_cause misaligned
store-Proceeds = record { alive = refl; no_trap = refl; no_halt = refl }

load-Proceeds : Proceeds calm byte_load
unfolding take_trap take_halt pre_halt double_trap async_cause misaligned
load-Proceeds = record { alive = refl; no_trap = refl; no_halt = refl }

store_load_example :
    (soc' : Soc World) × (resp : MemResp) × (data_access
        (some listening)
        (dmem_req calm byte_store false)
      ≡ ret (answer true 0 okay, some soc'))
    × IsRunning test_host soc'
    × (data_access (some soc') (dmem_req calm byte_load false) ≡ ret (resp, some soc'))
    × (let done = mem_out calm byte_load true resp in
        (done.halt_observed ≡ false)
        × (done.rd_value ≡ extended mem_len_1 true (0x12345681 % 256 ^ 1)))
store_load_example =
    store_load test_host listening calm calm byte_store byte_load listening-IsRunning store-Proceeds
      refl load-Proceeds refl refl refl (omega arith) (omega arith)

exec_lem_example :
    let t = issued (fetched 0 0 0x80000000 (encode (op alu_sub 3 1 2))) 5 7 in
    Does t (meaning (op alu_sub 3 1 2) 0x80000000 5 7) × Unit {0}
unfolding IsInst
exec_lem_example =
    exec_lem 0 0 0x80000000 5 7 (op alu_sub 3 1 2) (omega arith) (omega arith)
      (omega arith, omega arith, omega arith)

-- An `ecall` whose handler writes mscratch and returns.
abbrev write_scratch : CsrIn
write_scratch = record {
  csr_valid = true;
  csr_op = sys_csr_rw;
  csr_addr = csr_mscratch;
  csr_source = 77;
  csr_writes = true;
  trap_entry = false;
  trap_cause = 0;
  trap_epc = 0;
  trap_tval = 0;
  mret = false;
}

write_scratch-Quiet : Quiet (0, write_scratch)
write_scratch-Quiet = record {
  no_trap = refl;
  no_mret = refl;
  addresses = (λ e. omega arith, λ e. omega arith);
}

abbrev resuming : Backend
resuming = record backend_reset {
  exe_q = mret_token;
  csr =
      Traps.run (next true true trapping.backend idle zero_ir false).csr ((0, write_scratch) ∷ []);
}

resuming-Commits : Commits resuming idle
unfolding stall take_trap
resuming-Commits = record {
  mret = record {
    alive = refl;
    unit = refl;
    kind = refl;
    legal = refl;
    fetched = refl;
    no_halt = refl;
  };
  goes = refl;
  no_trap = refl;
}

handler_returns_example :
    (redirect_valid resuming idle ≡ true)
    × (redirect_pc resuming idle ≡ 0x80000100 / 4 % 2 ^ 30 * 4)
    × (bit_and (mstatus_o (next true true resuming idle zero_ir false).csr) mstatus_mie
        ≡ bit_and (mstatus_o trapping.backend.csr) mstatus_mie)
unfolding backend_flush take_trap pre_halt double_trap stall async_cause mstatus_o CsrFile.mie_o
    CsrFile.mip_o
handler_returns_example =
    handler_returns true true resuming idle resuming-Commits zero_ir false trapping.backend idle
      zero_ir false ((0, write_scratch) ∷ []) refl (write_scratch-Quiet, tt) refl
