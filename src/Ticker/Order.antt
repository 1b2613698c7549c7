-- ===== src/Ticker/Order.antt =====
-- "Tick order is registration order" (ticker.h).
use dae_pipeline_cpu.Prelude.{◌≡◌, refl, ◌∙◌, ap, fun_ext, arith, List, [], ◌∷◌, ◌++◌, length, ◌==◌}
use dae_pipeline_cpu.Prelude.{false, Bool-cases, inl, inr, ◌⊎◌}
use dae_pipeline_cpu.Bus.{Exec, abort, ret, ◌>>=◌}
use dae_pipeline_cpu.Alloc.{Alloc, alloc, done, enomem}
use dae_pipeline_cpu.Ticker.{Ticker, Tickable, add, tick_each, tick_all}

module _ {S : Type 0} where
  >>=-assoc :
      (m : Exec S) (f g h : S → Exec S)
      → ((s : S) → f s ≡ (g s >>= h))
      → (m >>= f) ≡ (m >>= g >>= h)
  >>=-assoc abort f g h e = refl
  >>=-assoc (ret s) f g h e = e s

  >>=-ret : (m : Exec S) → (m >>= ret) ≡ m
  >>=-ret abort = refl
  >>=-ret (ret s) = refl

  tick_each-append :
      (ts us : List (Tickable S)) (s : S)
      → tick_each (ts ++ us) s ≡ (tick_each ts s >>= tick_each us)
  unfolding tick_each
  tick_each-append [] us s = refl
  tick_each-append (t ∷ ts) us s =
      >>=-assoc (t s) (tick_each (ts ++ us)) (tick_each ts) (tick_each us) (tick_each-append ts us)

  tick_each-one : (t : Tickable S) (s : S) → tick_each (t ∷ []) s ≡ t s
  unfolding tick_each
  tick_each-one t s = >>=-ret (t s)

  last :
      (ts : List (Tickable S)) (t : Tickable S) (s : S)
      → tick_each (ts ++ (t ∷ [])) s ≡ (tick_each ts s >>= t)
  last ts t s =
      tick_each-append ts (t ∷ []) s
      ∙ ap (λ (f : S → Exec S). tick_each ts s >>= f) (fun_ext (tick_each-one t))

  -- A registration either puts the tickable last, so that it ticks after all that were there, or
  -- fails for want of memory at a full array and leaves the registry as it was.
  pub add_lem :
      (al : Alloc) (tk : Ticker S) (t : Tickable S)
      → ((add al tk t).0 ≡ done) × ((s : S) → tick_all (add al tk t).1 s ≡ (tick_all tk s >>= t))
        ⊎ ((add al tk t).0 ≡ enomem)
          × ((add al tk t).1 ≡ tk)
          × (length tk.tickables ≡ tk.cap)
          × ((alloc al).0 ≡ false)
  unfolding add tick_all
  add_lem al tk t = elim (Bool-cases (length tk.tickables == tk.cap)) [
    | inr more ↦ rw more (inl (refl, last tk.tickables t))
    | inl full ↦ elim (Bool-cases (alloc al).0) [
      | inl given ↦ rw (full, given) (inl (refl, last tk.tickables t))
      | inr refused ↦ rw (full, refused) (inr (refl, refl, ground arith, refl))
    ]
  ]
