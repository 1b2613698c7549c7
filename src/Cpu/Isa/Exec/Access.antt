-- ===== src/Cpu/Isa/Exec/Access.antt =====
-- The loads and stores: the address, and what the memory stage is told of the access.
use dae_pipeline_cpu.Prelude.{
  ℕ, ◌/◌, ◌%◌, ◌<◌, ◌≡◌, refl, arith, Bool, true, false, not, ◌==◌, if◌then◌else◌, ◌∙◌,
}
use dae_pipeline_cpu.Cpu.Word.{slice}
use dae_pipeline_cpu.Cpu.Types.{
  DecodedIr, InstToken, fu_load, fu_store, alu_op2_imm, MemLen, mem_len_1, mem_len_2, mem_len_4,
  is_load, is_store,
}
use dae_pipeline_cpu.Cpu.Alu.{alu}
use dae_pipeline_cpu.Cpu.Decoder.{imm_i, imm_s, decode_case, decode_load, decode_store}
use dae_pipeline_cpu.Cpu.Frontend.{id_out}
use dae_pipeline_cpu.Cpu.ExeStage.{alu_lhs, alu_rhs, alu_result, exe_redirect_valid, exe_out}
use dae_pipeline_cpu.Cpu.Isa.{Inst, load, store, encode, IsInst, load_funct3, store_funct3}
use dae_pipeline_cpu.Cpu.Isa.Fields.{r_fields, i_fields, imm_i_lem, imm_s_lem}
use dae_pipeline_cpu.Cpu.Isa.Meaning.{meaning}
use dae_pipeline_cpu.Cpu.Isa.Exec.{Does, issued, fetched, base_with, from_fields}

abbrev is_word : MemLen → Bool
is_word mem_len_4 = true
is_word _ = false

abbrev load_signext_of : MemLen → Bool → Bool
load_signext_of mem_len_4 signed = true
load_signext_of _ signed = signed

signed_is :
    (len : MemLen) (signed : Bool)
    → (if is_word len then true else load_signext_of len signed)
      ≡ (if is_word len then true else signed)
signed_is mem_len_1 signed = refl
signed_is mem_len_2 signed = refl
signed_is mem_len_4 signed = refl

-- What the memory stage is told: the unit, the length, and for a load the sign.
abbrev pub IsLoad : MemLen → Bool → InstToken → Type 0
IsLoad len signed t =
    (is_load t.ir ≡ true)
    × (t.ir.mem_len ≡ len)
    × ((if is_word len then true else t.ir.load_signext) ≡ (if is_word len then true else signed))

abbrev pub IsStore : ℕ → MemLen → InstToken → Type 0
IsStore b len t = (is_store t.ir ≡ true) × (t.ir.mem_len ≡ len) × (t.rs2_val ≡ b)

module _ (epoch seq_id pc a b : ℕ) where
  abbrev token : Inst → InstToken
  token i = issued (fetched epoch seq_id pc (encode i)) a b

  load_is :
      (len : MemLen) (signed : Bool) (d : DecodedIr) (rest : ℕ × ℕ)
      → (load_funct3 len signed < 8)
        × (decode_case d 0x03 (load_funct3 len signed) rest.0 rest.1 ≡ record d {
          fu_type = fu_load;
          rs1_use = true;
          rd_to_write = not (d.rd_idx == 0);
          imm = imm_i d.raw_inst;
          alu_op2_sel = alu_op2_imm;
          mem_len = len;
          load_signext = load_signext_of len signed;
          illegal = false;
        })
  unfolding decode_case decode_load
  load_is mem_len_1 true d rest = (omega arith, refl)
  load_is mem_len_1 false d rest = (omega arith, refl)
  load_is mem_len_2 true d rest = (omega arith, refl)
  load_is mem_len_2 false d rest = (omega arith, refl)
  load_is mem_len_4 signed d rest = (omega arith, refl)

  pub load_lem :
      (len : MemLen) (signed : Bool) (rd rs1 imm : ℕ)
      → IsInst (load len signed rd rs1 imm)
      → let t = token (load len signed rd rs1 imm) in
        Does t (meaning (load len signed rd rs1 imm) pc a b) × IsLoad len signed t
  unfolding id_out IsInst exe_out exe_redirect_valid alu_result alu_lhs alu_rhs alu
  load_lem len signed rd rs1 imm (hd, h1, hi) =
      let w = encode (load len signed rd rs1 imm) in
      let (small, is) =
        load_is len signed (base_with pc w rs1 (imm % 32) rd) (imm / 32, slice w 31 20) in
      let f = i_fields imm rs1 (load_funct3 len signed) rd 0x03 hi h1 small hd (omega arith) in
      let offset =
        imm_i_lem imm rs1 (load_funct3 len signed) rd 0x03 hi h1 small hd (omega arith) in
      let d = from_fields pc w (imm / 32) (imm % 32) rs1 (load_funct3 len signed) rd 0x03 f ∙ is in
      rw d (
        record {
          legal = refl;
          kept_legal = λ old new. refl;
          memory = refl;
          system = refl;
          reads1 = (refl, refl);
          reads2 = refl;
          writes = (refl, refl);
          result = tt;
          jumps = refl;
          address = λ old new. rw offset refl;
        },
        (refl, refl, signed_is len signed),
      )

  store_is :
      (len : MemLen) (d : DecodedIr) (rest : ℕ × ℕ)
      → (store_funct3 len < 8)
        × (decode_case d 0x23 (store_funct3 len) rest.0 rest.1 ≡ record d {
          fu_type = fu_store;
          rs1_use = true;
          rs2_use = true;
          imm = imm_s d.raw_inst;
          alu_op2_sel = alu_op2_imm;
          mem_len = len;
          illegal = false;
        })
  unfolding decode_case decode_store
  store_is mem_len_1 d rest = (omega arith, refl)
  store_is mem_len_2 d rest = (omega arith, refl)
  store_is mem_len_4 d rest = (omega arith, refl)

  pub store_lem :
      (len : MemLen) (rs1 rs2 imm : ℕ)
      → IsInst (store len rs1 rs2 imm)
      → let t = token (store len rs1 rs2 imm) in
        Does t (meaning (store len rs1 rs2 imm) pc a b) × IsStore b len t
  unfolding id_out IsInst exe_out exe_redirect_valid alu_result alu_lhs alu_rhs alu
  store_lem len rs1 rs2 imm (h1, h2, hi) =
      let w = encode (store len rs1 rs2 imm) in
      let (small, is) =
        store_is len (base_with pc w rs1 rs2 (imm % 32)) (imm / 32, slice w 31 20) in
      let f =
        r_fields (imm / 32) rs2 rs1 (store_funct3 len) (imm % 32) 0x23 (omega arith) h2 h1 small
          (omega arith) (omega arith) in
      let offset = imm_s_lem imm rs2 rs1 (store_funct3 len) 0x23 hi h2 h1 small (omega arith) in
      let d = from_fields pc w (imm / 32) rs2 rs1 (store_funct3 len) (imm % 32) 0x23 f ∙ is in
      rw d (
        record {
          legal = refl;
          kept_legal = λ old new. refl;
          memory = refl;
          system = refl;
          reads1 = (refl, refl);
          reads2 = (refl, refl);
          writes = refl;
          result = tt;
          jumps = refl;
          address = λ old new. rw offset refl;
        },
        (refl, refl, refl),
      )
