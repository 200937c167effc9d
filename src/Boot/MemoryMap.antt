-- ===== src/Boot/MemoryMap.antt =====
-- The end of the loader in main.c: the memory map is fetched and the boot services are left.
use mathlib.Core.Path.{subst}
use flosp_os.Common.{
  ℕ, ◌+◌, ◌*◌, ◌^◌, ◌≤◌, ◌<◌, ◌≡◌, ◌∙◌, sym, ap, false, not, ◌&&◌, ◌==◌, arith, u64,
}
use flosp_os.Common.Run.{Run, done}
use flosp_os.Mem.{Memory}
use flosp_os.Boot.Codes.{efi_success, efi_buffer_too_small, efi_error}
use flosp_os.Boot.Efi.{Firmware, Build, MapInfo, World, Outcome, value}
use flosp_os.Boot.Triple.{Ends, final, Ends-final, efi_error-never, then_weaken}
use flosp_os.Boot.Rules.{
  then_do, then_print_if, then_check, then_check_quiet, then_call, then_if, ◌$◌, then_pure,
  then_function,
}
use flosp_os.Boot.Main.{VideoModeInfo, System, get_memory_map, exit_efi}

-- What a state of the firmware says of its memory map. `Fine p`: the pool has not failed up to `p`.
-- `Left p`: the boot services have been left. The map has `map_size p` bytes.
pub record MapView (P : Type 0) : Type 1 where
  pub Fine : P → Type 0
  pub Left : P → Type 0
  pub map_size : P → ℕ
  pub map : P → ℕ → ℕ
  pub map_key : P → ℕ
  pub descriptor_bytes : ℕ

-- The documented effects: a buffer that is too small is left alone and its wanted size told, the map and
-- its key are given else, an allocation makes at most two new entries, and the services are left with the
-- key of the present map.
pub record MapLaws {P : Type 0} (fw : Firmware P) (u : MapView P) : Type 0 where
  pub same_state_law :
      (b : ℕ) (info : MapInfo) (m : Memory) (p : P) → (fw.get_memory_map b info m p).2 ≡ p
  pub too_small_law :
      (b : ℕ) (info : MapInfo) (m : Memory) (p : P)
      → info.size < u.map_size p
      → (let ((status, told), m', p') = fw.get_memory_map b info m p in
          (status ≡ efi_buffer_too_small)
          × (told.size ≡ u.map_size p)
          × (told.descriptor_size ≡ u.descriptor_bytes))
  pub map_law :
      (b : ℕ) (info : MapInfo) (m : Memory) (p : P)
      → u.map_size p ≤ info.size
      → (let ((status, told), m', p') = fw.get_memory_map b info m p in
          (status ≡ efi_success)
          × (told.size ≡ u.map_size p)
          × (told.key ≡ u.map_key p)
          × (told.descriptor_size ≡ u.descriptor_bytes)
          × ((i : ℕ) → i < u.map_size p → m' (b + i) ≡ u.map p i))
  pub pool_law :
      (size old : ℕ) (m : Memory) (p : P)
      → (let ((status, b), m', p') = fw.allocate_pool size old m p in
          u.Fine p'
          → u.Fine p
            × (status ≡ efi_success)
            × (u.map_size p' ≤ u.map_size p + 2 * u.descriptor_bytes))
  pub exit_law :
      (handle key : ℕ) (m : Memory) (p : P)
      → (let (status, m', p') = fw.exit_boot_services handle key m p in
          u.Fine p'
          → u.Fine p
            × (key ≡ u.map_key p
                → (status ≡ efi_success)
                  × u.Left p'
                  × (m' ≡ m)
                  × (u.map_size p' ≡ u.map_size p)
                  × (u.map p' ≡ u.map p)))

module _ {P : Type 0} (u : MapView P) where
  -- The bytes of the map lie at an address, and its size and key were told.
  pub record MapAt (map : ℕ) (info : MapInfo) (m : Memory) (p : P) : Type 0 where
    pub size : info.size ≡ u.map_size p
    pub key : info.key ≡ u.map_key p
    pub entry : info.descriptor_size ≡ u.descriptor_bytes
    pub bytes : (i : ℕ) → i < u.map_size p → m (map + i) ≡ u.map p i

  -- The boot services are left, and the kernel is given the size of the map and where its bytes lie.
  abbrev pub Handed : ℕ → MapInfo → Memory → P → Type 0
  Handed map info m p =
      u.Left p
      × (info.size ≡ u.map_size p)
      × (info.descriptor_size ≡ u.descriptor_bytes)
      × ((i : ℕ) → i < u.map_size p → m (map + i) ≡ u.map p i)

module _ {P : Type 0} (build : Build) (fw : Firmware P) where
  abbrev pub exit_run : System → VideoModeInfo → World P → Run (Outcome ℕ (ℕ × MapInfo) × World P)
  exit_run system video w = exit_efi build fw system video w

module _ {P : Type 0} (build : Build) (fw : Firmware P) (u : MapView P) (laws : MapLaws fw u) where
  get_memory_map-MapAt :
      {R : Type 0} (old : ℕ) (info : MapInfo) (m : Memory) (p : P)
      → info.size < u.map_size p
      → u.map_size p + 2 * u.descriptor_bytes < 2 ^ 64
      → Ends {R = R}
          (get_memory_map build fw old info)
          (λ (status, map, told) m' p'.
            u.Fine p' → u.Fine p × (status ≡ efi_success) × MapAt u map told m' p')
          m
          p
  unfolding get_memory_map
  get_memory_map-MapAt old info m p small fits =
      let ((status, told), m1, p1) = fw.get_memory_map old info m p in
      let (_, wanted, entry) = laws.too_small_law old info m p small in
      let size = u64 (told.size + u64 (2 * told.descriptor_size)) in
      let ((status2, b), m2, p2) = fw.allocate_pool size old m1 p1 in
      let ((status3, told3), m3, p3) = fw.get_memory_map b (record told { size = size }) m2 p2 in
      then_function
      $ then_print_if _ _
      $ then_call _ _
      $ then_do
      $ then_if (efi_error status && not (status == efi_buffer_too_small))
          (λ failed. absurd (ground (arith, efi_error-never status, failed)))
          (λ _.
            then_pure _
            $ then_call _ _
            $ then_check _ _ _
            $ then_call _ _
            $ then_check _ _ _
            $ then_pure _ (λ fine3.
              let same3 : p3 ≡ p2 = laws.same_state_law b (record told { size = size }) m2 p2 in
              let (fine1, _, grown) = laws.pool_law size old m1 p1 (subst u.Fine same3 fine3) in
              let same1 : p1 ≡ p = laws.same_state_law old info m p in
              let room : u.map_size p2 ≤ size = room_for told p1 p2 same1 wanted entry grown in
              let (good, length, key, entry3, bytes) =
                laws.map_law b (record told { size = size }) m2 p2 room in
              (
                subst u.Fine same1 fine1,
                good,
                subst (λ q. MapAt u b told3 m3 q) (sym same3)
                    (record { size = length; key = key; entry = entry3; bytes = bytes }),
              )))
    where
      room_for :
          (told : MapInfo) (p1 p2 : P)
          → p1 ≡ p
          → told.size ≡ u.map_size p
          → told.descriptor_size ≡ u.descriptor_bytes
          → u.map_size p2 ≤ u.map_size p1 + 2 * u.descriptor_bytes
          → u.map_size p2 ≤ u64 (told.size + u64 (2 * told.descriptor_size))
      room_for told p1 p2 same wanted entry grown =
          let before : u.map_size p1 ≡ u.map_size p = ap u.map_size same in
          omega (arith, wanted, entry, before, grown, fits)

  pub exit_efi-Left :
      build.debug ≡ false
      → (system : System) (video : VideoModeInfo) (m : Memory) (p : P) → 0 < u.map_size p
      → u.map_size p + 2 * u.descriptor_bytes < 2 ^ 64
      → Ends
          (exit_efi build fw system video)
          (λ (map, info) m' p'. u.Fine p' → Handed u map info m' p')
          m
          p
  unfolding exit_efi
  exit_efi-Left quiet system video m p some_map fits =
      then_print_if _ _
      $ then_do
      $ then_weaken (get_memory_map-MapAt 0 _ m p some_map fits) (λ (status, map, info) m1 p1 got.
        then_check_quiet _ _
        $ then_print_if _ _
        $ then_call _ _
        $ then_check _ _ _
        $ then_do
        $ then_if build.debug (λ debug. absurd (ground (arith, quiet, debug)))
            (λ _.
              then_pure _
              $ then_pure _ (λ fine2.
                let (fine1, left) = laws.exit_law system.image_handle info.key m1 p1 fine2 in
                let (fine, good, at_map) = got fine1 in
                let (_, gone, same_mem, same_size, same_map) = left at_map.key in
                (
                  gone,
                  at_map.size ∙ sym same_size,
                  at_map.entry,
                  λ i lt.
                      ap (λ v. v (map + i)) same_mem
                      ∙ (at_map.bytes i (omega (arith, lt, same_size))
                          ∙ ap (λ f. f i) (sym same_map)),
                ))))

  -- In a build that prints no debug texts, the boot services are left with the key of the present map,
  -- and the map lies in the memory at the address that the kernel is given, with its size, if the pool
  -- has not failed and the map has bytes and does not come near 2 ^ 64. The room for two more entries is
  -- enough for what the allocation of the buffer adds.
  pub exit_efi-left :
      build.debug ≡ false
      → (system : System) (video : VideoModeInfo) (w : World P) → 0 < u.map_size w.private
      → u.map_size w.private + 2 * u.descriptor_bytes < 2 ^ 64
      → (let end = final w (exit_run build fw system video w) in
          u.Fine end.private
          → (given : ℕ × MapInfo) × (exit_run build fw system video w ≡ done (value given, end))
            × Handed u given.0 given.1 end.mem end.private)
  exit_efi-left quiet system video w some_map fits fine =
      let (a, e, handed) =
        Ends-final (exit_efi-Left quiet system video w.mem w.private some_map fits) w.printed in
      (a, e, handed fine)
