-- ===== src/Tests/Cpu.antt =====
-- The processor at concrete inputs.
use dae_pipeline_cpu.Prelude.{ℕ, ◌≡◌, refl, arith, true, false, List, [], ◌∷◌, Bool}
use dae_pipeline_cpu.Cpu.Types.{sys_csr_rw}
use dae_pipeline_cpu.Cpu.Fifo
use dae_pipeline_cpu.Cpu.Fifo.{Fifo}
use dae_pipeline_cpu.Cpu.Fifo.Bounded
use dae_pipeline_cpu.Cpu.Fifo.Bounded.{In}
use dae_pipeline_cpu.Cpu.Fifo.Refine
use dae_pipeline_cpu.Cpu.CsrFile
use dae_pipeline_cpu.Cpu.CsrFile.{
  CsrFile, CsrIn, mstatus_mie, mstatus_o, mepc_o, read_csr, csr_mscratch, csr_mstatus,
}
use dae_pipeline_cpu.Cpu.CsrFile.Access.{legal, access_lem}

-- A full queue of two entries, one of which leaves while another waits.
abbrev empty_fifo : Fifo ℕ
empty_fifo = record { mem_q = λ i. 9; rd_ptr_q = 1; wr_ptr_q = 0; count_q = 5 }

abbrev fifo_in : ℕ → Bool → In ℕ
fifo_in x out_ready = record { flush = false; in_data = x; in_valid = true; out_ready = out_ready }

abbrev fifo_ins : List (In ℕ)
fifo_ins = fifo_in 5 false ∷ fifo_in 6 false ∷ fifo_in 7 true ∷ fifo_in 8 true ∷ []

fifo_refines_example :
    Refine.run_fifo 2 (Fifo.reset 2 empty_fifo) fifo_ins
    ≡ Bounded.run 2 (Refine.contents 2 (Fifo.reset 2 empty_fifo)) fifo_ins
fifo_refines_example =
    Refine.fifo_refines 2 (Fifo.reset 2 empty_fifo) fifo_ins
      (Refine.reset-IsValid 2 empty_fifo (omega arith))

abbrev no_csr : CsrIn
no_csr = record {
  csr_valid = false;
  csr_op = sys_csr_rw;
  csr_addr = csr_mscratch;
  csr_source = 0;
  csr_writes = false;
  trap_entry = false;
  trap_cause = 0;
  trap_epc = 0;
  trap_tval = 0;
  mret = false;
}

-- A processor with the interrupts on.
abbrev enabled_csr : CsrFile
enabled_csr = record CsrFile.reset { mstatus_q = 0x8; mie_q = 0x80; mtvec_q = 0x80000400 }

-- A write of mstatus keeps two fields of the value and shows the privilege.
abbrev write_mstatus : CsrIn
write_mstatus = record no_csr {
  csr_valid = true;
  csr_addr = csr_mstatus;
  csr_source = 0xffffffff;
  csr_writes = true;
}

access_lem_example :
    read_csr (CsrFile.step enabled_csr 0 write_mstatus) 0 csr_mstatus ≡ legal csr_mstatus 0xffffffff
access_lem_example = access_lem enabled_csr 0 write_mstatus 0 csr_mstatus refl refl
