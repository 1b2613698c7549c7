-- ===== src/Bus.antt =====
-- devices/common: the response codes of axi_resp.h, the abort of DEV_PANIC and DEV_ASSERT in
-- common.h, and the MmioDevice trait of mmio_device.c.
--
-- A device is reached through its vtable. `S` is the store in which the concrete objects live: a
-- pointer to a trait view is a vtable over that store, and `container_of` is the projection that
-- the constructor of the store picks (`vtbl_at`). `self` and the vtable pointer are never NULL here.
use Prim.Native.String.{String}
use dae_pipeline_cpu.Prelude.{ℕ, Bool, true, false, not, ◌&&◌, ◌==◌}

-- `axi_resp_e`, in the order of the wire encoding 0, 1, 2, 3.
pub data AxiResp : Type 0 where
  okay exokay slverr decerr : AxiResp

unfoldable pub axi_resp_name : AxiResp → String
axi_resp_name okay = "OKAY"
axi_resp_name exokay = "EXOKAY"
axi_resp_name slverr = "SLVERR"
axi_resp_name decerr = "DECERR"

abbrev pub is_okay : AxiResp → Bool
is_okay okay = true
is_okay _ = false

-- What a call comes to: `abort` is DEV_PANIC, which ends the process.
pub data Exec {ℓ} (A : Type ℓ) : Type ℓ where
  abort : Exec A
  ret : A → Exec A

infixl 5 ◌>>=◌
abbrev pub ◌>>=◌ {ℓ κ} : {A : Type ℓ} {B : Type κ} → Exec A → (A → Exec B) → Exec B
abort >>= f = abort
ret a >>= f = f a

-- DEV_ASSERT
abbrev pub dev_assert {ℓ} : {A : Type ℓ} → Bool → Exec A → Exec A
dev_assert true k = k
dev_assert false k = abort

-- What a read gives back: the response, what is stored through `value_out`, and the store.
abbrev pub ReadReply : Type 0 → Type 0
ReadReply S = AxiResp × ℕ × S

abbrev pub WriteReply : Type 0 → Type 0
WriteReply S = AxiResp × S

-- `struct MmioDeviceVtbl`: read takes the offset and the width, write the offset, the width, the
-- value and the strobe.
pub record MmioDevice (S : Type 0) : Type 0 where
  pub read : S → ℕ → ℕ → Exec (ReadReply S)
  pub write : S → ℕ → ℕ → ℕ → ℕ → Exec (WriteReply S)

-- MmioDevice_ctor: the default methods panic until a concrete class overrides them.
unfoldable pub default_device : {S : Type 0} → MmioDevice S
default_device = record {
  read = λ s offset width. abort;
  write = λ s offset width value strb. abort;
}

-- The overrides of a concrete class, for an object that lies at `get` in the store.
module _ {S D : Type 0} (get : S → D) (set : S → D → S) where
  abbrev pub vtbl_at : (D → ℕ → ℕ → AxiResp × ℕ) → (D → ℕ → ℕ → ℕ → ℕ → AxiResp × D) → MmioDevice S
  vtbl_at read write = record {
    read = λ s offset width. let (resp, value) = read (get s) offset width in ret (resp, value, s);
    write = λ s offset width value strb.
        let (resp, d) = write (get s) offset width value strb in ret (resp, set s d);
  }

-- `width != 1 && width != 2 && width != 4`, the first test of three devices.
abbrev pub bad_width : ℕ → Bool
bad_width width = not (width == 1) && not (width == 2) && not (width == 4)

-- The dispatchers MmioDevice_read and MmioDevice_write.
abbrev pub device_read : {S : Type 0} → MmioDevice S → S → ℕ → ℕ → Exec (ReadReply S)
device_read dev s offset width = dev.read s offset width

abbrev pub device_write : {S : Type 0} → MmioDevice S → S → ℕ → ℕ → ℕ → ℕ → Exec (WriteReply S)
device_write dev s offset width value strb = dev.write s offset width value strb
