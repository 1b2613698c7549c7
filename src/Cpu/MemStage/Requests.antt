-- ===== src/Cpu/MemStage/Requests.antt =====
-- The requests of the memory stage.
use dae_pipeline_cpu.Prelude.{ℕ, ◌≡◌, refl, arith, Bool, true, false, ◌&&◌, ◌||◌}
use dae_pipeline_cpu.Cpu.Types.{
  InstToken, is_load, is_store, is_mem, is_ebreak, FuType, fu_load, fu_store, token_alive,
}
use dae_pipeline_cpu.Cpu.Lsu.{be, wdata, load_data_filter}
use dae_pipeline_cpu.Cpu.MemStage.{
  TrapIn, pre_halt, double_trap, take_halt, take_trap, is_misaligned, is_memory, dmem_req, mem_out,
}

-- A live instruction that neither traps nor halts.
pub record Proceeds (c : TrapIn) (t : InstToken) : Type 0 where
  pub alive : token_alive t ≡ true
  pub no_trap : take_trap c t ≡ false
  pub no_halt : take_halt c t ≡ false

halts :
    (alive h a b e m twice : Bool)
    → alive ≡ true
    → (alive && (h || a || b || e || m) || twice) ≡ false
    → (h ≡ false) × (m ≡ false)
halts alive h a b e m twice p q = ground arith

load_or_store : (t : InstToken) → is_store t.ir ≡ true → is_load t.ir ≡ false
load_or_store t e = by_unit t.ir.fu_type e
  where
    by_unit :
        (u : FuType)
        → (elim u [ fu_store ↦ true | _ ↦ false ]) ≡ true
        → (elim u [ fu_load ↦ true | _ ↦ false ]) ≡ false
    by_unit u e = ground arith

store_or_load : (t : InstToken) → is_load t.ir ≡ true → is_store t.ir ≡ false
store_or_load t e = by_unit t.ir.fu_type e
  where
    by_unit :
        (u : FuType)
        → (elim u [ fu_load ↦ true | _ ↦ false ]) ≡ true
        → (elim u [ fu_store ↦ true | _ ↦ false ]) ≡ false
    by_unit u e = ground arith

module _ {c : TrapIn} {t : InstToken} (p : Proceeds c t) where
  parts : (t.halt_observed ≡ false) × ((is_memory t && is_misaligned t) ≡ false)
  unfolding take_halt pre_halt
  parts =
      halts (token_alive t) t.halt_observed t.ir.if_bus_error t.ir.illegal (is_ebreak t.ir)
        (is_memory t && is_misaligned t) (double_trap c t) p.alive p.no_halt

  aligned : is_mem t.ir ≡ true → is_misaligned t ≡ false
  aligned m = rw (← parts.1, p.alive, m) refl

  pub store_aligned : is_store t.ir ≡ true → is_misaligned t ≡ false
  store_aligned e = aligned (rw (load_or_store t e, e) refl)

  pub store_request :
      is_store t.ir ≡ true
      → dmem_req c t false ≡ record {
        req_valid = true;
        addr = t.mem_addr;
        we = true;
        be = be t.mem_addr t.ir.mem_len;
        wdata = wdata t.mem_addr t.rs2_val t.ir.mem_len;
      }
  unfolding dmem_req
  store_request e = rw (load_or_store t e, e, p.alive, p.no_trap, p.no_halt, store_aligned e) refl

  pub load_request :
      is_load t.ir ≡ true
      → dmem_req c t false ≡ record {
        req_valid = true;
        addr = t.mem_addr;
        we = false;
        be = be t.mem_addr t.ir.mem_len;
        wdata = wdata t.mem_addr t.rs2_val t.ir.mem_len;
      }
  unfolding dmem_req
  load_request e =
      rw (e, store_or_load t e, p.alive, p.no_trap, p.no_halt, aligned (rw e refl)) refl

  pub load_result :
      (value : ℕ)
      → is_load t.ir ≡ true
      → let done = mem_out c t true (record { resp_valid = true; rdata = value; error = false }) in
        (done.rd_value ≡ load_data_filter t.mem_addr value t.ir.mem_len t.ir.load_signext)
        × (done.halt_observed ≡ false)
        × (done.trap_pending ≡ t.trap_pending)
  unfolding mem_out
  load_result value e = rw (e, p.alive, p.no_trap, p.no_halt, parts.0) (refl, refl, refl)
