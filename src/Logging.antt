-- ===== src/Logging.antt =====
-- devices/common/src/logging_mmio_device.c: the decorator that writes one line of trace for each
-- access. A line is its fields; the printing of them is left to fprintf.
pub mod Transparent
use Prim.Native.String.{String}
use dae_pipeline_cpu.Prelude.{ℕ, Bool, true, false, Option, none, some, if◌then◌else◌}
use dae_pipeline_cpu.Bus.{
  AxiResp, axi_resp_name, is_okay, Exec, ret, ◌>>=◌, MmioDevice, device_read, device_write,
}
use dae_pipeline_cpu.Host.{File}

-- `stderr`
abbrev pub stderr : File
stderr = 2

-- `(user_sink != NULL) ? user_sink : stderr`
abbrev pub resolve_sink : Option File → File
resolve_sink none = stderr
resolve_sink (some f) = f

-- The arguments of the two calls of fprintf: the width, the offset, the value, the strobe of a
-- write, and the name of the response.
pub data Line : Type 0 where
  read_line : String → ℕ → ℕ → ℕ → String → Line
  write_line : String → ℕ → ℕ → ℕ → ℕ → String → Line

-- `fprintf` of a line to a file, over the store.
module _ {S : Type 0} (fprintf : S → File → Line → S) where
  pub record LoggingMmioDevice : Type 0 where
    pub wrapped : MmioDevice S
    pub tag : String
    pub sink : Option File

  pub read : LoggingMmioDevice → S → ℕ → ℕ → Exec (AxiResp × ℕ × S)
  read self s offset width = device_read self.wrapped s offset width >>= λ r. ret (
    r.0,
    if is_okay r.0 then r.1 else 0,
    fprintf r.2 (resolve_sink self.sink) (read_line self.tag width offset r.1 (axi_resp_name r.0)),
  )

  pub write : LoggingMmioDevice → S → ℕ → ℕ → ℕ → ℕ → Exec (AxiResp × S)
  write self s offset width value strb =
      device_write self.wrapped s offset width value strb >>= λ r. ret (
        r.0,
        fprintf r.1 (resolve_sink self.sink)
            (write_line self.tag width offset value strb (axi_resp_name r.0)),
      )

  -- LoggingMmioDevice_ctor, as the vtable of the decorated device.
  pub ctor : MmioDevice S → String → Option File → MmioDevice S
  ctor wrapped tag sink =
      let self : LoggingMmioDevice = record { wrapped = wrapped; tag = tag; sink = sink } in
      record { read = read self; write = write self }
