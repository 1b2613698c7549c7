-- ===== src/Cpu/TbTop/StoreLoad.antt =====
-- A store of the processor and the loads that follow it, through the bench and the SoC.
use dae_pipeline_cpu.Prelude.{
  ℕ, ◌+◌, ◌-◌, ◌%◌, ◌^◌, ◌≤◌, ◌≡◌, refl, arith, true, false, ◌∙◌, ap, some, sym,
}
use dae_pipeline_cpu.Bus.{okay, ret}
use dae_pipeline_cpu.Bytes.{store}
use dae_pipeline_cpu.Bytes.Load.{le_value, IsWidth}
use dae_pipeline_cpu.Bytes.Store.{le_value-store}
use dae_pipeline_cpu.Host.{Host}
use dae_pipeline_cpu.Soc.{Soc}
use dae_pipeline_cpu.Soc.Run.{IsRunning}
use dae_pipeline_cpu.Dpi
use dae_pipeline_cpu.Dpi.Program.{dram_read}
use dae_pipeline_cpu.Cpu.Types.{
  InstToken, MemReq, MemResp, MemLen, mem_len_1, mem_len_2, mem_len_4, is_load, is_store,
}
use dae_pipeline_cpu.Cpu.Lsu.{misaligned}
use dae_pipeline_cpu.Cpu.Lsu.Lanes.{bytes, bytes-IsWidth, extended, filter_lem, misaligned_lem}
use dae_pipeline_cpu.Cpu.MemStage.{TrapIn, dmem_req, mem_out}
use dae_pipeline_cpu.Cpu.MemStage.Requests.{
  Proceeds, store_aligned, store_request, load_request, load_result,
}
use dae_pipeline_cpu.Cpu.TbTop.{dpi_access, data_access, answer}
use dae_pipeline_cpu.Cpu.TbTop.Memory.{
  store_req, store-Access, full_strobe, with_store, dram_write, with_store-IsRunning,
}

fits :
    (addr : ℕ) (len : MemLen)
    → addr % bytes len ≡ 0
    → 0x80000000 ≤ addr
    → addr + bytes len ≤ 0x84000000
    → addr - addr % 4 + 4 ≤ 0x84000000
fits addr mem_len_1 m low high = omega arith
fits addr mem_len_2 m low high = omega arith
fits addr mem_len_4 m low high = omega arith

module _ {W : Type 0} (host : Host W) where
  -- What a store leaves in the SoC.
  abbrev stored : Soc W → ℕ → ℕ → MemLen → Soc W
  stored soc addr v len =
      let a = dpi_access (store_req addr v len) in with_store host soc addr a.0 a.1 a.2

  store_lem :
      (soc : Soc W) (addr v : ℕ) (len : MemLen)
      → IsRunning host soc
      → misaligned addr len ≡ false
      → 0x80000000 ≤ addr
      → addr + bytes len ≤ 0x84000000
      → data_access (some soc) (store_req addr v len)
        ≡ ret (answer true 0 okay, some (stored soc addr v len))
  unfolding data_access Dpi.write
  store_lem soc addr v len r even low high =
      let a = store-Access addr v len in
      let (width, value, strb) = dpi_access (store_req addr v len) in
      let lanes : IsWidth width = rw a.width_is (bytes-IsWidth len) in
      let even' : addr % width ≡ 0 = rw a.width_is (misaligned_lem addr len even) in
      let high' : addr + width ≤ 0x84000000 = rw a.width_is high in
      let full : strb ≡ 2 ^ width - 1 = rw a.width_is a.strobe_is in
      rw (dram_write host soc addr width value strb r lanes even' low high' full) refl

  load_lem :
      (soc : Soc W) (addr : ℕ) (len : MemLen) (req : MemReq)
      → IsRunning host soc
      → req.req_valid ≡ true
      → req.we ≡ false
      → req.addr ≡ addr
      → misaligned addr len ≡ false
      → 0x80000000 ≤ addr
      → addr + bytes len ≤ 0x84000000
      → let o = addr - 0x80000000 in
        data_access (some soc) req
        ≡ ret (answer true (le_value 4 soc.devices.dram.backing (o - o % 4)) okay, some soc)
  unfolding data_access Dpi.read
  load_lem soc addr len req r e f g even low high =
      let a = addr - addr % 4 in
      let o = addr - 0x80000000 in
      let m = misaligned_lem addr len even in
      let here : a - 0x80000000 ≡ o - o % 4 = omega arith in
      let inside : a + 4 ≤ 0x84000000 = fits addr len m low high in
      rw
        (
          e,
          f,
          g,
          dram_read host soc a 4 r (bytes-IsWidth mem_len_4) (omega arith) (omega arith) inside,
          here,
        )
        refl

  -- What the bytes of the access hold after the store.
  stored_value :
      (soc : Soc W) (addr v : ℕ) (len : MemLen)
      → le_value (bytes len) (stored soc addr v len).devices.dram.backing (addr - 0x80000000)
        ≡ v % 256 ^ bytes len
  stored_value soc addr v len =
      let a = store-Access addr v len in
      let (width, value, strb) = dpi_access (store_req addr v len) in
      let lanes : IsWidth width = rw a.width_is (bytes-IsWidth len) in
      let full : strb ≡ 2 ^ width - 1 = rw a.width_is a.strobe_is in
      let b = soc.devices.dram.backing in
      let held =
        le_value-store b (addr - 0x80000000) width value strb lanes
          (λ i. full_strobe width strb i lanes full) in
      ap (λ (n : ℕ). le_value n (store b (addr - 0x80000000) width value strb) (addr - 0x80000000))
        (sym a.width_is)
      ∙ held
      ∙ ap (λ (n : ℕ). value % 256 ^ n) a.width_is
      ∙ a.value_is

  -- A store that passes the memory stage with an address in DRAM is answered without an error, and
  -- a load that passes it at the same address and of the same length then finishes without a halt,
  -- its result being the bytes stored, with the sign extension that the load asks for: through the
  -- lanes of the store, the bench, the bridge, the map and DRAM, and back through the load's filter.
  pub store_load :
      (soc : Soc W) (c c' : TrapIn) (s l : InstToken)
      → IsRunning host soc
      → Proceeds c s
      → is_store s.ir ≡ true
      → Proceeds c' l
      → is_load l.ir ≡ true
      → l.mem_addr ≡ s.mem_addr
      → l.ir.mem_len ≡ s.ir.mem_len
      → 0x80000000 ≤ s.mem_addr
      → s.mem_addr + bytes s.ir.mem_len ≤ 0x84000000
      → (soc' : Soc W) × (resp : MemResp) × (data_access (some soc) (dmem_req c s false)
          ≡ ret (answer true 0 okay, some soc'))
        × IsRunning host soc'
        × (data_access (some soc') (dmem_req c' l false) ≡ ret (resp, some soc'))
        × (let done = mem_out c' l true resp in
            (done.halt_observed ≡ false)
            × (done.rd_value
                ≡ extended l.ir.mem_len l.ir.load_signext (s.rs2_val % 256 ^ bytes s.ir.mem_len)))
  store_load soc c c' s l r ps es pl el same_addr same_len low high =
      let addr = s.mem_addr in
      let len = s.ir.mem_len in
      let o = addr - 0x80000000 in
      let even : misaligned addr len ≡ false = store_aligned ps es in
      let next = stored soc addr s.rs2_val len in
      let a = dpi_access (store_req addr s.rs2_val len) in
      let r' : IsRunning host next = with_store-IsRunning host soc addr a.0 a.1 a.2 r in
      let b = next.devices.dram.backing in
      let word = le_value 4 b (o - o % 4) in
      let (value_is, no_halt, _) = load_result pl word el in
      (
        next,
        answer true word okay,
        rw (store_request ps es) (store_lem soc addr s.rs2_val len r even low high),
        r',
        load_lem next addr len (dmem_req c' l false) r'
            (ap (λ (q : MemReq). q.req_valid) (load_request pl el))
            (ap (λ (q : MemReq). q.we) (load_request pl el))
            (ap (λ (q : MemReq). q.addr) (load_request pl el) ∙ same_addr) even low high,
        (
          no_halt,
          rw (value_is, same_addr, same_len)
              (filter_lem b addr o len l.ir.load_signext r'.sound.dram_bytes even (omega arith)
                ∙ ap (extended len l.ir.load_signext) (stored_value soc addr s.rs2_val len)),
        ),
      )
