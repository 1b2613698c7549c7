-- ===== src/Cpu/Isa/Exec/Flow.antt =====
-- The jumps and branches.
use dae_pipeline_cpu.Prelude.{
  ℕ, ◌+◌, ◌*◌, ◌/◌, ◌%◌, ◌^◌, ◌<◌, ◌≡◌, ◌≢◌, refl, arith, Bool, true, false, ◌||◌, if◌then◌else◌,
  ◌∙◌, some, none,
}
use dae_pipeline_cpu.Cpu.Word.{slice}
use dae_pipeline_cpu.Cpu.Types.{
  DecodedIr, InstToken, fu_branch, BranchOp, br_jump, br_eq, br_ne, br_lt, br_ltu, br_ge, br_geu,
}
use dae_pipeline_cpu.Cpu.Alu.{taken, target_pc, link_val}
use dae_pipeline_cpu.Cpu.Decoder.{
  imm_b, decode_base, decode_case, decoder, decode_branch, decode_jal, decode_jalr,
}
use dae_pipeline_cpu.Cpu.Frontend.{id_out}
use dae_pipeline_cpu.Cpu.ExeStage.{
  actual_redirect_pc, branch_taken, exe_redirect_valid, exe_redirect_pc, exe_rd_value, exe_out,
}
use dae_pipeline_cpu.Cpu.Isa.{Inst, jal, jalr, branch, encode, IsInst, branch_funct3, holds}
use dae_pipeline_cpu.Cpu.Isa.Arith.{taken_lem}
use dae_pipeline_cpu.Cpu.Isa.Fields.{r_fields, i_fields, u_fields, imm_i_lem, imm_b_lem, imm_j_lem}
use dae_pipeline_cpu.Cpu.Isa.Meaning.{meaning}
use dae_pipeline_cpu.Cpu.Isa.Exec.{
  Does, Jumps, issued, fetched, base_with, from_fields, from_u_fields,
}

Jumps-if :
    (h : Bool) (v : ℕ) (t : InstToken)
    → exe_redirect_valid t false false ≡ h
    → ((mepc : ℕ) → exe_redirect_pc t mepc ≡ v)
    → Jumps (if h then some v else none) t
Jumps-if true v t e target = (e, target)
Jumps-if false v t e target = e

or_false : (x : Bool) → (x || false) ≡ x
or_false x = ground arith

module _ (epoch seq_id pc a b : ℕ) (ha : a < 2 ^ 32) (hb : b < 2 ^ 32) where
  abbrev token : Inst → InstToken
  token i = issued (fetched epoch seq_id pc (encode i)) a b

  pub jal_lem :
      (rd imm : ℕ) → IsInst (jal rd imm) → Does (token (jal rd imm)) (meaning (jal rd imm) pc a b)
  unfolding id_out IsInst decode_case decode_jal exe_out exe_rd_value exe_redirect_valid
      exe_redirect_pc actual_redirect_pc branch_taken taken decoder decode_base target_pc link_val
  jal_lem rd imm (hd, hi) =
      let w = encode (jal rd imm) in
      let field =
        imm / 2 ^ 19 * 2 ^ 19
        + imm % 2 ^ 10 * 2 ^ 9
        + imm / 2 ^ 10 % 2 * 2 ^ 8
        + imm / 2 ^ 11 % 2 ^ 8 in
      let u = u_fields field rd 0x6f hd (omega arith) in
      let target = imm_j_lem imm rd 0x6f hi hd (omega arith) in
      rw (from_u_fields pc w rd 0x6f u) record {
        legal = refl;
        kept_legal = λ old new. refl;
        memory = refl;
        system = refl;
        reads1 = refl;
        reads2 = refl;
        writes = (refl, refl);
        result = λ old new. refl;
        jumps = (refl, λ mepc. rw (u.0, target) refl);
        address = tt;
      }

  pub jalr_lem :
      (rd rs1 imm : ℕ)
      → IsInst (jalr rd rs1 imm)
      → Does (token (jalr rd rs1 imm)) (meaning (jalr rd rs1 imm) pc a b)
  unfolding id_out IsInst decode_case decode_jalr exe_out exe_rd_value exe_redirect_valid
      exe_redirect_pc actual_redirect_pc branch_taken taken target_pc link_val
  jalr_lem rd rs1 imm (hd, h1, hi) =
      let w = encode (jalr rd rs1 imm) in
      let f = i_fields imm rs1 0 rd 0x67 hi h1 (omega arith) hd (omega arith) in
      let d = from_fields pc w (imm / 32) (imm % 32) rs1 0 rd 0x67 f in
      let target = imm_i_lem imm rs1 0 rd 0x67 hi h1 (omega arith) hd (omega arith) in
      rw d record {
        legal = refl;
        kept_legal = λ old new. refl;
        memory = refl;
        system = refl;
        reads1 = (refl, refl);
        reads2 = refl;
        writes = (refl, refl);
        result = λ old new. refl;
        jumps = (refl, λ mepc. rw (f.opcode_is, target) (omega arith));
        address = tt;
      }

  funct3_is : (c : BranchOp) → branch_funct3 c < 8
  funct3_is c = ground arith

  branch_is :
      (c : BranchOp) (d : DecodedIr) (rest : ℕ × ℕ)
      → c ≢ br_jump
      → decode_case d 0x63 (branch_funct3 c) rest.0 rest.1 ≡ record d {
        fu_type = fu_branch;
        rs1_use = true;
        rs2_use = true;
        imm = imm_b d.raw_inst;
        branch_op = c;
        illegal = false;
      }
  unfolding decode_case decode_branch
  branch_is br_jump d rest n = absurd (n refl)
  branch_is br_eq d rest n = refl
  branch_is br_ne d rest n = refl
  branch_is br_lt d rest n = refl
  branch_is br_ltu d rest n = refl
  branch_is br_ge d rest n = refl
  branch_is br_geu d rest n = refl

  pub branch_lem :
      (c : BranchOp) (rs1 rs2 imm : ℕ)
      → IsInst (branch c rs1 rs2 imm)
      → Does (token (branch c rs1 rs2 imm)) (meaning (branch c rs1 rs2 imm) pc a b)
  unfolding id_out IsInst exe_out exe_rd_value exe_redirect_valid exe_redirect_pc actual_redirect_pc
      branch_taken target_pc link_val
  branch_lem c rs1 rs2 imm (h1, h2, hi, n) =
      let w = encode (branch c rs1 rs2 imm) in
      let high = imm / 2 ^ 11 * 2 ^ 6 + imm / 2 ^ 4 % 2 ^ 6 in
      let low = imm % 2 ^ 4 * 2 + imm / 2 ^ 10 % 2 in
      let f =
        r_fields high rs2 rs1 (branch_funct3 c) low 0x63 (omega arith) h2 h1 (funct3_is c)
          (omega arith) (omega arith) in
      let target =
        imm_b_lem imm rs2 rs1 (branch_funct3 c) 0x63 hi h2 h1 (funct3_is c) (omega arith) in
      let d =
        from_fields pc w high rs2 rs1 (branch_funct3 c) low 0x63 f
        ∙ branch_is c (base_with pc w rs1 rs2 low) (high, slice w 31 20) n in
      rw d record {
        legal = refl;
        kept_legal = λ old new. refl;
        memory = refl;
        system = refl;
        reads1 = (refl, refl);
        reads2 = (refl, refl);
        writes = refl;
        result = tt;
        jumps =
            Jumps-if (holds c a b) _ _ (or_false (taken c a b) ∙ taken_lem c a b ha hb)
              (λ mepc. rw (f.opcode_is, target) refl);
        address = tt;
      }
