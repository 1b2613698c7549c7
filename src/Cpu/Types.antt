-- ===== src/Cpu/Types.antt =====
-- include/uarch.svh: the types that the stages exchange, and the functions on them.
pub mod Kill
use dae_pipeline_cpu.Prelude.{
  ℕ, ◌+◌, ◌-◌, ◌%◌, ◌^◌, Bool, true, false, not, ◌&&◌, ◌||◌, ◌==◌, if◌then◌else◌,
}
use dae_pipeline_cpu.Cpu.Word.{slice, bit_at}

abbrev pub epoch_w : ℕ
epoch_w = 2

abbrev pub seq_id_w : ℕ
seq_id_w = 8

-- `kill_event_t`
pub record KillEvent : Type 0 where
  pub valid : Bool
  pub epoch : ℕ
  pub seq_id : ℕ

-- `fu_type_e`
pub data FuType : Type 0 where
  fu_int fu_branch fu_csr fu_load fu_store fu_system : FuType

-- `alu_op_e`
pub data AluOp : Type 0 where
  alu_add alu_sll alu_slt alu_sltu alu_xor alu_srl alu_or alu_and alu_sub alu_sra : AluOp

-- `alu_op1_sel_e`
pub data AluOp1Sel : Type 0 where
  alu_op1_rs1 alu_op1_pc alu_op1_zero : AluOp1Sel

-- `alu_op2_sel_e`
pub data AluOp2Sel : Type 0 where
  alu_op2_rs2 alu_op2_imm : AluOp2Sel

-- `branch_op_e`
pub data BranchOp : Type 0 where
  br_jump br_eq br_ne br_lt br_ltu br_ge br_geu : BranchOp

-- `mem_len_e`
pub data MemLen : Type 0 where
  mem_len_1 mem_len_2 mem_len_4 : MemLen

-- `system_kind_e`
pub data SystemKind : Type 0 where
  sys_not sys_ecall sys_ebreak sys_mret sys_wfi sys_csr_rw sys_csr_rs sys_csr_rc : SystemKind

-- `halt_kind_e`
pub data HaltKind : Type 0 where
  halt_none halt_voluntary halt_illegal halt_bus_error_if halt_bus_error_ld halt_bus_error_st
        halt_misalign_pc halt_misalign_ld halt_misalign_st halt_double_trap :
      HaltKind

-- `mem_req_t`
pub record MemReq : Type 0 where
  pub req_valid : Bool
  pub addr : ℕ
  pub we : Bool
  pub be : ℕ
  pub wdata : ℕ

-- `mem_resp_t`
pub record MemResp : Type 0 where
  pub resp_valid : Bool
  pub rdata : ℕ
  pub error : Bool

-- `fetch_pkt_t`
pub record FetchPkt : Type 0 where
  pub valid : Bool
  pub epoch : ℕ
  pub seq_id : ℕ
  pub pc : ℕ
  pub inst : ℕ
  pub error : Bool

-- `commit_packet_t`
pub record CommitPacket : Type 0 where
  pub pc : ℕ
  pub rd_value : ℕ
  pub rd : ℕ
  pub rd_to_write : Bool
  pub store_valid : Bool
  pub store_addr : ℕ
  pub store_data : ℕ
  pub store_strb : ℕ
  pub halt_observed : Bool
  pub halt_kind : HaltKind
  pub halt_exit_code : ℕ
  pub trap_taken : Bool
  pub trap_cause : ℕ
  pub trap_mepc : ℕ
  pub trap_mtval : ℕ
  pub csr_mstatus : ℕ
  pub csr_mtvec : ℕ
  pub csr_mepc : ℕ
  pub csr_mcause : ℕ
  pub csr_mtval : ℕ
  pub csr_mscratch : ℕ
  pub csr_mie : ℕ

-- `decoded_ir_t`
pub record DecodedIr : Type 0 where
  pub epoch : ℕ
  pub seq_id : ℕ
  pub pc : ℕ
  pub raw_inst : ℕ
  pub if_bus_error : Bool
  pub fu_type : FuType
  pub alu_op : AluOp
  pub alu_op1_sel : AluOp1Sel
  pub alu_op2_sel : AluOp2Sel
  pub branch_op : BranchOp
  pub sys_kind : SystemKind
  pub mem_len : MemLen
  pub load_signext : Bool
  pub rs1_use : Bool
  pub rs1_idx : ℕ
  pub rs2_use : Bool
  pub rs2_idx : ℕ
  pub rd_to_write : Bool
  pub rd_idx : ℕ
  pub imm : ℕ
  pub csr_addr : ℕ
  pub csr_source_imm : ℕ
  pub csr_source_is_imm : Bool
  pub csr_writes : Bool
  pub illegal : Bool

-- `inst_token_t`
pub record InstToken : Type 0 where
  pub valid : Bool
  pub epoch : ℕ
  pub seq_id : ℕ
  pub ir : DecodedIr
  pub rs1_val : ℕ
  pub rs2_val : ℕ
  pub alu_result : ℕ
  pub rd_value : ℕ
  pub mem_addr : ℕ
  pub store_addr : ℕ
  pub store_data : ℕ
  pub store_strb : ℕ
  pub csr_illegal : Bool
  pub csr_old : ℕ
  pub csr_new : ℕ
  pub killed : Bool
  pub trap_pending : Bool
  pub trap_cause : ℕ
  pub trap_tval : ℕ
  pub halt_observed : Bool
  pub halt_kind : HaltKind

-- `scoreboard_row_t`
pub record ScoreboardRow : Type 0 where
  pub valid : Bool
  pub epoch : ℕ
  pub seq_id : ℕ
  pub killed : Bool
  pub rs1_use : Bool
  pub rs1_idx : ℕ
  pub rs2_use : Bool
  pub rs2_idx : ℕ
  pub rd_to_write : Bool
  pub rd_idx : ℕ
  pub rd_ready : Bool
  pub rd_written_back : Bool

-- The values `'0`.
abbrev pub zero_ir : DecodedIr
zero_ir = record {
  epoch = 0;
  seq_id = 0;
  pc = 0;
  raw_inst = 0;
  if_bus_error = false;
  fu_type = fu_int;
  alu_op = alu_add;
  alu_op1_sel = alu_op1_rs1;
  alu_op2_sel = alu_op2_rs2;
  branch_op = br_jump;
  sys_kind = sys_not;
  mem_len = mem_len_1;
  load_signext = false;
  rs1_use = false;
  rs1_idx = 0;
  rs2_use = false;
  rs2_idx = 0;
  rd_to_write = false;
  rd_idx = 0;
  imm = 0;
  csr_addr = 0;
  csr_source_imm = 0;
  csr_source_is_imm = false;
  csr_writes = false;
  illegal = false;
}

abbrev pub zero_token : InstToken
zero_token = record {
  valid = false;
  epoch = 0;
  seq_id = 0;
  ir = zero_ir;
  rs1_val = 0;
  rs2_val = 0;
  alu_result = 0;
  rd_value = 0;
  mem_addr = 0;
  store_addr = 0;
  store_data = 0;
  store_strb = 0;
  csr_illegal = false;
  csr_old = 0;
  csr_new = 0;
  killed = false;
  trap_pending = false;
  trap_cause = 0;
  trap_tval = 0;
  halt_observed = false;
  halt_kind = halt_none;
}

abbrev pub zero_row : ScoreboardRow
zero_row = record {
  valid = false;
  epoch = 0;
  seq_id = 0;
  killed = false;
  rs1_use = false;
  rs1_idx = 0;
  rs2_use = false;
  rs2_idx = 0;
  rd_to_write = false;
  rd_idx = 0;
  rd_ready = false;
  rd_written_back = false;
}

abbrev pub zero_fetch : FetchPkt
zero_fetch = record { valid = false; epoch = 0; seq_id = 0; pc = 0; inst = 0; error = false }

abbrev pub zero_kill : KillEvent
zero_kill = record { valid = false; epoch = 0; seq_id = 0 }

-- Sequence numbers are compared in their cyclic order.
unfoldable pub seq_after : ℕ → ℕ → Bool
seq_after lhs rhs =
    let diff = (lhs + 2 ^ seq_id_w - rhs) % 2 ^ seq_id_w in not (diff == 0) && not (bit_at diff 7)

unfoldable pub killed_by_event : Bool → ℕ → ℕ → KillEvent → Bool
killed_by_event valid epoch seq_id kill =
    kill.valid && valid && epoch == kill.epoch && seq_after seq_id kill.seq_id

unfoldable pub kill_token_if_younger : InstToken → KillEvent → InstToken
kill_token_if_younger token kill =
    if not token.killed && killed_by_event token.valid token.epoch token.seq_id kill
    then record token { killed = true }
    else token

unfoldable pub kill_scoreboard_row_if_younger : ScoreboardRow → KillEvent → ScoreboardRow
kill_scoreboard_row_if_younger row kill =
    if not row.killed && killed_by_event row.valid row.epoch row.seq_id kill
    then record row { killed = true }
    else row

-- The tests `fu_type == FU_LOAD` and so on.
abbrev pub is_load : DecodedIr → Bool
is_load ir = elim ir.fu_type [ fu_load ↦ true | _ ↦ false ]

abbrev pub is_store : DecodedIr → Bool
is_store ir = elim ir.fu_type [ fu_store ↦ true | _ ↦ false ]

abbrev pub is_branch : DecodedIr → Bool
is_branch ir = elim ir.fu_type [ fu_branch ↦ true | _ ↦ false ]

abbrev pub is_csr : DecodedIr → Bool
is_csr ir = elim ir.fu_type [ fu_csr ↦ true | _ ↦ false ]

abbrev pub is_mem : DecodedIr → Bool
is_mem ir = is_load ir || is_store ir

abbrev pub is_mret : DecodedIr → Bool
is_mret ir = elim ir.sys_kind [ sys_mret ↦ true | _ ↦ false ]

abbrev pub is_ebreak : DecodedIr → Bool
is_ebreak ir = elim ir.sys_kind [ sys_ebreak ↦ true | _ ↦ false ]

abbrev pub is_ecall : DecodedIr → Bool
is_ecall ir = elim ir.sys_kind [ sys_ecall ↦ true | _ ↦ false ]

-- `token_alive`, in two of the stages
abbrev pub token_alive : InstToken → Bool
token_alive token = token.valid && not token.killed

pub halt_exit_code : HaltKind → ℕ → ℕ
halt_exit_code halt_voluntary a0 = slice a0 7 0
halt_exit_code halt_illegal a0 = 130
halt_exit_code halt_bus_error_if a0 = 131
halt_exit_code halt_bus_error_ld a0 = 132
halt_exit_code halt_bus_error_st a0 = 133
halt_exit_code halt_misalign_pc a0 = 134
halt_exit_code halt_misalign_ld a0 = 134
halt_exit_code halt_misalign_st a0 = 134
halt_exit_code halt_double_trap a0 = 135
halt_exit_code halt_none a0 = 1
