-- ===== src/Cpu/Isa/Meaning.antt =====
-- What the manual says that an instruction does.
use dae_pipeline_cpu.Prelude.{ℕ, ◌+◌, ◌*◌, ◌/◌, ◌^◌, if◌then◌else◌, u32, Option, some, none}
use dae_pipeline_cpu.Cpu.Types.{}
use dae_pipeline_cpu.Cpu.Decoder.{}
use dae_pipeline_cpu.Cpu.ExeStage.{}
use dae_pipeline_cpu.Cpu.Isa.{
  Inst, op, op_imm, lui, auipc, jal, jalr, branch, load, store, is_shift, sext, compute, holds,
}
use dae_pipeline_cpu.Cpu.Isa.Fields.{}

-- What an instruction does at `pc` with the values `a` and `b` of its source registers: the register
-- that it writes and the value, none where memory gives it; the jump; the address of an access.
pub record Meaning : Type 0 where
  pub source1 : Option ℕ
  pub source2 : Option ℕ
  pub dest : Option ℕ
  pub result : Option ℕ
  pub jumps : Option ℕ
  pub address : Option ℕ

abbrev pub meaning : Inst → ℕ → ℕ → ℕ → Meaning
meaning (op o rd rs1 rs2) pc a b = record {
  source1 = some rs1;
  source2 = some rs2;
  dest = some rd;
  result = some (compute o a b);
  jumps = none;
  address = none;
}
meaning (op_imm o rd rs1 imm) pc a b = record {
  source1 = some rs1;
  source2 = none;
  dest = some rd;
  result = some (compute o a (if is_shift o then imm else sext 12 imm));
  jumps = none;
  address = none;
}
meaning (lui rd imm) pc a b = record {
  source1 = none;
  source2 = none;
  dest = some rd;
  result = some (imm * 2 ^ 12);
  jumps = none;
  address = none;
}
meaning (auipc rd imm) pc a b = record {
  source1 = none;
  source2 = none;
  dest = some rd;
  result = some (u32 (pc + imm * 2 ^ 12));
  jumps = none;
  address = none;
}
meaning (jal rd imm) pc a b = record {
  source1 = none;
  source2 = none;
  dest = some rd;
  result = some (u32 (pc + 4));
  jumps = some (u32 (pc + sext 21 (imm * 2)));
  address = none;
}
meaning (jalr rd rs1 imm) pc a b = record {
  source1 = some rs1;
  source2 = none;
  dest = some rd;
  result = some (u32 (pc + 4));
  jumps = some (u32 (a + sext 12 imm) / 2 * 2);
  address = none;
}
meaning (branch c rs1 rs2 imm) pc a b = record {
  source1 = some rs1;
  source2 = some rs2;
  dest = none;
  result = none;
  jumps = if holds c a b then some (u32 (pc + sext 13 (imm * 2))) else none;
  address = none;
}
meaning (load len signed rd rs1 imm) pc a b = record {
  source1 = some rs1;
  source2 = none;
  dest = some rd;
  result = none;
  jumps = none;
  address = some (u32 (a + sext 12 imm));
}
meaning (store len rs1 rs2 imm) pc a b = record {
  source1 = some rs1;
  source2 = some rs2;
  dest = none;
  result = none;
  jumps = none;
  address = some (u32 (a + sext 12 imm));
}
