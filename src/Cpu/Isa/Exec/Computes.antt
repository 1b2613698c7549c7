-- ===== src/Cpu/Isa/Exec/Computes.antt =====
-- The instructions that compute a value.
use dae_pipeline_cpu.Prelude.{
  ℕ, ◌+◌, ◌*◌, ◌/◌, ◌%◌, ◌^◌, ◌<◌, ◌≡◌, ◌≢◌, refl, arith, true, false, not, ◌==◌, ◌&&◌, ◌||◌,
  if◌then◌else◌, ◌∙◌, ap,
}
use dae_pipeline_cpu.Cpu.Types.{
  InstToken, alu_op2_imm, AluOp, alu_add, alu_sll, alu_slt, alu_sltu, alu_xor, alu_srl, alu_or,
  alu_and, alu_sub, alu_sra,
}
use dae_pipeline_cpu.Cpu.Alu.{alu}
use dae_pipeline_cpu.Cpu.Decoder.{
  alu_op_of, bad_funct7, decode_case, decoder, decode_op, decode_op_imm, decode_auipc, decode_lui,
}
use dae_pipeline_cpu.Cpu.Frontend.{id_out}
use dae_pipeline_cpu.Cpu.ExeStage.{
  alu_lhs, alu_rhs, alu_result, exe_redirect_valid, exe_rd_value, exe_out,
}
use dae_pipeline_cpu.Cpu.Isa.{
  Inst, op, op_imm, lui, auipc, encode, IsInst, alu_funct3, alu_funct7, is_shift, sext, compute,
}
use dae_pipeline_cpu.Cpu.Isa.Arith.{alu_lem}
use dae_pipeline_cpu.Cpu.Isa.Fields.{r_fields, i_fields, u_fields, imm_i_lem, imm_u_lem}
use dae_pipeline_cpu.Cpu.Isa.Meaning.{meaning}
use dae_pipeline_cpu.Cpu.Isa.Exec.{Does, issued, fetched, base_with, from_fields, from_u_fields}

funct3_small : (o : AluOp) → (alu_funct3 o < 8) × (alu_funct7 o < 128)
funct3_small o = ground arith

op_of :
    (o : AluOp)
    → (alu_op_of false (alu_funct3 o) (alu_funct7 o) ≡ o) × (bad_funct7 (alu_funct7 o) ≡ false)
op_of alu_add = (refl, refl)
op_of alu_sub = (refl, refl)
op_of alu_sll = (refl, refl)
op_of alu_slt = (refl, refl)
op_of alu_sltu = (refl, refl)
op_of alu_xor = (refl, refl)
op_of alu_srl = (refl, refl)
op_of alu_sra = (refl, refl)
op_of alu_or = (refl, refl)
op_of alu_and = (refl, refl)

-- The word that an immediate operation is encoded with, as its operation and its operand.
imm_op_of :
    (o : AluOp) (imm : ℕ)
    → imm < (if is_shift o then 32 else 2 ^ 12)
    → o ≢ alu_sub
    → let f7 = (alu_funct7 o * 2 ^ 5 + imm) / 32 in
      let f3 = alu_funct3 o in
      (alu_op_of true f3 f7 ≡ o) × ((f3 == 1 && not (f7 == 0) || f3 == 5 && bad_funct7 f7) ≡ false)
imm_op_of alu_add imm h n = (refl, refl)
imm_op_of alu_sub imm h n = absurd (n refl)
imm_op_of alu_sll imm h n = let e : (0 + imm) / 32 ≡ 0 = omega arith in rw e (refl, refl)
imm_op_of alu_slt imm h n = (refl, refl)
imm_op_of alu_sltu imm h n = (refl, refl)
imm_op_of alu_xor imm h n = (refl, refl)
imm_op_of alu_srl imm h n = let e : (0 + imm) / 32 ≡ 0 = omega arith in rw e (refl, refl)
imm_op_of alu_sra imm h n = let e : (1024 + imm) / 32 ≡ 32 = omega arith in rw e (refl, refl)
imm_op_of alu_or imm h n = (refl, refl)
imm_op_of alu_and imm h n = (refl, refl)

imm_small :
    (o : AluOp) (imm : ℕ)
    → imm < (if is_shift o then 32 else 2 ^ 12)
    → o ≢ alu_sub
    → alu_funct7 o * 2 ^ 5 + imm < 4096
imm_small alu_sub imm h n = absurd (n refl)
imm_small alu_sra imm h n = omega arith
imm_small alu_srl imm h n = omega arith
imm_small alu_sll imm h n = omega arith
imm_small alu_add imm h n = omega arith
imm_small alu_slt imm h n = omega arith
imm_small alu_sltu imm h n = omega arith
imm_small alu_xor imm h n = omega arith
imm_small alu_or imm h n = omega arith
imm_small alu_and imm h n = omega arith

zero_plus : (x : ℕ) → 0 + x ≡ x
zero_plus x = omega arith

operand_of :
    (o : AluOp) (a imm : ℕ)
    → imm < (if is_shift o then 32 else 2 ^ 12)
    → o ≢ alu_sub
    → compute o a (sext 12 (alu_funct7 o * 2 ^ 5 + imm))
      ≡ compute o a (if is_shift o then imm else sext 12 imm)
operand_of alu_sub a imm h n = absurd (n refl)
operand_of alu_sll a imm h n = let e : sext 12 (0 + imm) % 32 ≡ imm % 32 = omega arith in rw e refl
operand_of alu_srl a imm h n = let e : sext 12 (0 + imm) % 32 ≡ imm % 32 = omega arith in rw e refl
operand_of alu_sra a imm h n =
    let e : sext 12 (1024 + imm) % 32 ≡ imm % 32 = omega arith in rw e refl
operand_of alu_add a imm h n = ap (λ (x : ℕ). compute alu_add a (sext 12 x)) (zero_plus imm)
operand_of alu_slt a imm h n = ap (λ (x : ℕ). compute alu_slt a (sext 12 x)) (zero_plus imm)
operand_of alu_sltu a imm h n = ap (λ (x : ℕ). compute alu_sltu a (sext 12 x)) (zero_plus imm)
operand_of alu_xor a imm h n = ap (λ (x : ℕ). compute alu_xor a (sext 12 x)) (zero_plus imm)
operand_of alu_or a imm h n = ap (λ (x : ℕ). compute alu_or a (sext 12 x)) (zero_plus imm)
operand_of alu_and a imm h n = ap (λ (x : ℕ). compute alu_and a (sext 12 x)) (zero_plus imm)

sext_small : (x : ℕ) → sext 12 x < 2 ^ 32
sext_small x = omega arith

module _ (epoch seq_id pc a b : ℕ) (ha : a < 2 ^ 32) (hb : b < 2 ^ 32) where
  abbrev token : Inst → InstToken
  token i = issued (fetched epoch seq_id pc (encode i)) a b

  pub op_lem :
      (o : AluOp) (rd rs1 rs2 : ℕ)
      → IsInst (op o rd rs1 rs2)
      → Does (token (op o rd rs1 rs2)) (meaning (op o rd rs1 rs2) pc a b)
  unfolding id_out IsInst decode_op exe_out exe_rd_value alu_result alu_lhs alu_rhs
      exe_redirect_valid decode_case
  op_lem o rd rs1 rs2 (hd, h1, h2) =
      let w = encode (op o rd rs1 rs2) in
      let (small3, small7) = funct3_small o in
      let (which, good) = op_of o in
      let d : decoder pc w false ≡ record (base_with pc w rs1 rs2 rd) {
        rs1_use = true;
        rs2_use = true;
        rd_to_write = not (rd == 0);
        alu_op = o;
        illegal = false;
      } =
        from_fields pc w (alu_funct7 o) rs2 rs1 (alu_funct3 o) rd 0x33 (
          r_fields (alu_funct7 o) rs2 rs1 (alu_funct3 o) rd 0x33 small7 h2 h1 small3 hd
            (omega arith))
        ∙ rw (decode_case, which, good) refl in
      rw d record {
        legal = refl;
        kept_legal = λ old new. refl;
        memory = refl;
        system = refl;
        reads1 = (refl, refl);
        reads2 = (refl, refl);
        writes = (refl, refl);
        result = λ old new. alu_lem o a b ha hb;
        jumps = refl;
        address = tt;
      }

  pub op_imm_lem :
      (o : AluOp) (rd rs1 imm : ℕ)
      → IsInst (op_imm o rd rs1 imm)
      → Does (token (op_imm o rd rs1 imm)) (meaning (op_imm o rd rs1 imm) pc a b)
  unfolding id_out IsInst decode_case decode_op_imm exe_out exe_rd_value alu_result alu_lhs alu_rhs
      exe_redirect_valid
  op_imm_lem o rd rs1 imm (hd, h1, hi, n) =
      let w = encode (op_imm o rd rs1 imm) in
      let field = alu_funct7 o * 2 ^ 5 + imm in
      let (small3, small7) = funct3_small o in
      let small = imm_small o imm hi n in
      let (which, good) = imm_op_of o imm hi n in
      let f = i_fields field rs1 (alu_funct3 o) rd 0x13 small h1 small3 hd (omega arith) in
      let value = imm_i_lem field rs1 (alu_funct3 o) rd 0x13 small h1 small3 hd (omega arith) in
      let d : decoder pc w false ≡ record (base_with pc w rs1 (field % 32) rd) {
        rs1_use = true;
        rd_to_write = not (rd == 0);
        imm = sext 12 field;
        alu_op2_sel = alu_op2_imm;
        alu_op = o;
        illegal = false;
      } =
        from_fields pc w (field / 32) (field % 32) rs1 (alu_funct3 o) rd 0x13 f
        ∙ rw (decode_case, which, good, value) refl in
      rw d record {
        legal = refl;
        kept_legal = λ old new. refl;
        memory = refl;
        system = refl;
        reads1 = (refl, refl);
        reads2 = refl;
        writes = (refl, refl);
        result =
            λ old new. alu_lem o a (sext 12 field) ha (sext_small field) ∙ operand_of o a imm hi n;
        jumps = refl;
        address = tt;
      }

  pub lui_lem :
      (rd imm : ℕ) → IsInst (lui rd imm) → Does (token (lui rd imm)) (meaning (lui rd imm) pc a b)
  unfolding id_out IsInst decode_case decode_lui exe_out exe_rd_value alu_result alu_lhs alu_rhs
      exe_redirect_valid alu
  lui_lem rd imm (hd, hi) =
      let w = encode (lui rd imm) in
      let d = from_u_fields pc w rd 0x37 (u_fields imm rd 0x37 hd (omega arith)) in
      let value = imm_u_lem imm rd 0x37 hi hd (omega arith) in
      rw d record {
        legal = refl;
        kept_legal = λ old new. refl;
        memory = refl;
        system = refl;
        reads1 = refl;
        reads2 = refl;
        writes = (refl, refl);
        result = λ old new. rw value (omega arith);
        jumps = refl;
        address = tt;
      }

  pub auipc_lem :
      (rd imm : ℕ)
      → IsInst (auipc rd imm)
      → Does (token (auipc rd imm)) (meaning (auipc rd imm) pc a b)
  unfolding id_out IsInst decode_case decode_auipc exe_out exe_rd_value alu_result alu_lhs alu_rhs
      exe_redirect_valid alu
  auipc_lem rd imm (hd, hi) =
      let w = encode (auipc rd imm) in
      let d = from_u_fields pc w rd 0x17 (u_fields imm rd 0x17 hd (omega arith)) in
      let value = imm_u_lem imm rd 0x17 hi hd (omega arith) in
      rw d record {
        legal = refl;
        kept_legal = λ old new. refl;
        memory = refl;
        system = refl;
        reads1 = refl;
        reads2 = refl;
        writes = (refl, refl);
        result = λ old new. rw value refl;
        jumps = refl;
        address = tt;
      }
