-- ===== src/Cpu/Isa/Fields.antt =====
-- The fields of an encoded instruction.
use dae_pipeline_cpu.Prelude.{ℕ, ◌*◌, ◌/◌, ◌%◌, ◌^◌, ◌<◌, ◌≡◌, arith}
use dae_pipeline_cpu.Cpu.Word.{slice}
use dae_pipeline_cpu.Cpu.Decoder.{imm_i, imm_s, imm_b, imm_j, imm_u}
use dae_pipeline_cpu.Cpu.Isa.{r_word, i_word, s_word, b_word, u_word, j_word, sext}

pub record RFields (w funct7 rs2 rs1 funct3 rd opcode : ℕ) : Type 0 where
  pub opcode_is : slice w 6 0 ≡ opcode
  pub rd_is : slice w 11 7 ≡ rd
  pub funct3_is : slice w 14 12 ≡ funct3
  pub rs1_is : slice w 19 15 ≡ rs1
  pub rs2_is : slice w 24 20 ≡ rs2
  pub funct7_is : slice w 31 25 ≡ funct7

pub r_fields :
    (funct7 rs2 rs1 funct3 rd opcode : ℕ)
    → funct7 < 128
    → rs2 < 32
    → rs1 < 32
    → funct3 < 8
    → rd < 32
    → opcode < 128
    → RFields (r_word funct7 rs2 rs1 funct3 rd opcode) funct7 rs2 rs1 funct3 rd opcode
r_fields funct7 rs2 rs1 funct3 rd opcode h7 h2 h1 h3 hd ho = record {
  opcode_is = omega arith;
  rd_is = omega arith;
  funct3_is = omega arith;
  rs1_is = omega arith;
  rs2_is = omega arith;
  funct7_is = omega arith;
}

pub imm_i_lem :
    (imm rs1 funct3 rd opcode : ℕ)
    → imm < 4096
    → rs1 < 32
    → funct3 < 8
    → rd < 32
    → opcode < 128
    → imm_i (i_word imm rs1 funct3 rd opcode) ≡ sext 12 imm
imm_i_lem imm rs1 funct3 rd opcode hi h1 h3 hd ho =
    let f : slice (i_word imm rs1 funct3 rd opcode) 31 20 ≡ imm = omega arith in rw f (ground arith)

pub imm_s_lem :
    (imm rs2 rs1 funct3 opcode : ℕ)
    → imm < 4096
    → rs2 < 32
    → rs1 < 32
    → funct3 < 8
    → opcode < 128
    → imm_s (s_word imm rs2 rs1 funct3 opcode) ≡ sext 12 imm
imm_s_lem imm rs2 rs1 funct3 opcode hi h2 h1 h3 ho =
    let f =
      r_fields (imm / 32) rs2 rs1 funct3 (imm % 32) opcode (omega arith) h2 h1 h3 (omega arith)
        ho in
    rw (f.funct7_is, f.rd_is) (ground arith)

pub imm_b_lem :
    (imm rs2 rs1 funct3 opcode : ℕ)
    → imm < 4096
    → rs2 < 32
    → rs1 < 32
    → funct3 < 8
    → opcode < 128
    → imm_b (b_word imm rs2 rs1 funct3 opcode) ≡ sext 13 (imm * 2)
imm_b_lem imm rs2 rs1 funct3 opcode hi h2 h1 h3 ho =
    let w = b_word imm rs2 rs1 funct3 opcode in
    let top : slice w 31 31 ≡ imm / 2 ^ 11 = omega arith in
    let second : slice w 7 7 ≡ imm / 2 ^ 10 % 2 = omega arith in
    let high : slice w 30 25 ≡ imm / 2 ^ 4 % 2 ^ 6 = omega arith in
    let low : slice w 11 8 ≡ imm % 2 ^ 4 = omega arith in rw (top, second, high, low) (ground arith)

pub imm_j_lem :
    (imm rd opcode : ℕ)
    → imm < 2 ^ 20
    → rd < 32
    → opcode < 128
    → imm_j (j_word imm rd opcode) ≡ sext 21 (imm * 2)
imm_j_lem imm rd opcode hi hd ho =
    let w = j_word imm rd opcode in
    let top : slice w 31 31 ≡ imm / 2 ^ 19 = omega arith in
    let low : slice w 30 21 ≡ imm % 2 ^ 10 = omega arith in
    let mid : slice w 20 20 ≡ imm / 2 ^ 10 % 2 = omega arith in
    let high : slice w 19 12 ≡ imm / 2 ^ 11 % 2 ^ 8 = omega arith in
    rw (top, low, mid, high) (ground arith)

pub imm_u_lem :
    (imm rd opcode : ℕ)
    → imm < 2 ^ 20
    → rd < 32
    → opcode < 128
    → imm_u (u_word imm rd opcode) ≡ imm * 2 ^ 12
imm_u_lem imm rd opcode hi hd ho = omega arith

-- The fields that an I, a U and a J word share with an R word.
pub i_fields :
    (imm rs1 funct3 rd opcode : ℕ)
    → imm < 4096
    → rs1 < 32
    → funct3 < 8
    → rd < 32
    → opcode < 128
    → RFields (i_word imm rs1 funct3 rd opcode) (imm / 32) (imm % 32) rs1 funct3 rd opcode
i_fields imm rs1 funct3 rd opcode hi h1 h3 hd ho = record {
  opcode_is = omega arith;
  rd_is = omega arith;
  funct3_is = omega arith;
  rs1_is = omega arith;
  rs2_is = omega arith;
  funct7_is = omega arith;
}

pub u_fields :
    (imm rd opcode : ℕ)
    → rd < 32
    → opcode < 128
    → (slice (u_word imm rd opcode) 6 0 ≡ opcode) × (slice (u_word imm rd opcode) 11 7 ≡ rd)
u_fields imm rd opcode hd ho = (omega arith, omega arith)
