-- ===== src/Boot/Sample.antt =====
-- A firmware with one file, the first eight bytes of the memory left to the loader, a pool that grows upwards, and pages above 1 MiB, taken in order.
use flosp_os.Common.{
  false, ℕ, ◌+◌, ◌-◌, ◌*◌, ◌%◌, ◌<◌, ◌≡◌, refl, Bool, true, ◌&&◌, ◌||◌, arith, ltb, leb, ◌==◌,
  Bool-cases, inl, inr, if◌then◌else◌,
}
use flosp_os.Mem.{Memory, store_le}
use flosp_os.Mem.Words.{inside}
use flosp_os.Mem.Copy.{block_copy, block_fill}
use flosp_os.Boot.Codes.{efi_success, efi_not_found, efi_buffer_too_small}
use flosp_os.Boot.Efi.{Service, Firmware, MapInfo}
use flosp_os.Boot.MemoryMap.{MapView, MapLaws}
use flosp_os.Boot.Uefi.{View, Laws}

pub record Disk : Type 0 where
  pub ok : Bool
  pub pool_next : ℕ
  pub page_next : ℕ
  pub seek : ℕ
  pub blocks : ℕ → ℕ
  pub left : Bool

abbrev pub one_mib : ℕ
one_mib = 0x100000

-- The file: a header with its identity, the entry point, and the place and count of the program headers;
-- one program header, which asks for 300 bytes from 128 on and 5000 bytes at 2 MiB.
abbrev file_header : Memory
file_header =
    let filler = λ (i : ℕ). (7 * i + 3) % 256 in
    store_le 2 (store_le 8 (store_le 8 (store_le 8 filler 0 0x10102464c457f) 24 0x200000) 32 64) 56
      1

abbrev pub content : ℕ → ℕ
content =
    store_le 8
      (store_le 8 (store_le 8 (store_le 8 (store_le 4 file_header 64 1) 72 128) 88 0x200000) 96 300)
      104 5000

abbrev pub length : ℕ
length = 8192

abbrev outcome : Bool → ℕ
outcome t = if t then efi_success else efi_not_found

abbrev pub fill_file : ℕ → ℕ → ℕ → Memory → Memory
fill_file pos b size m a = if inside b size a then content (pos + (a - b)) else m a

abbrev fine : {A : Type 0} → A → Service Disk A
fine a m p = (a, m, p)

-- The memory map: two entries of 48 bytes, and a third one once the pool has grown past 4096; its key
-- changes with each allocation of the pool.
abbrev pub map_length : Disk → ℕ
map_length p = if leb p.pool_next 0x1000 then 96 else 144

abbrev pub map_content : ℕ → ℕ
map_content i = (5 * i + 1) % 256

abbrev fill_map : ℕ → ℕ → Memory → Memory
fill_map b size m a = if inside b size a then map_content (a - b) else m a

abbrev tell_map : ℕ → MapInfo → Service Disk (ℕ × MapInfo)
tell_map b info m p =
    let size = map_length p in
    let told : MapInfo = record {
      size = size;
      key = p.pool_next;
      descriptor_size = 48;
      descriptor_version = 1;
    } in
    if ltb info.size size
    then ((efi_buffer_too_small, told), m, p)
    else ((efi_success, told), fill_map b size m, p)

abbrev pub sample : Firmware Disk
sample = record {
  open_file = λ dir name old. fine (0, 1);
  close = λ image. fine 0;
  read =
      λ image b size m p. ((0, size), fill_file p.seek b size m, record p { seek = p.seek + size });
  set_position = λ image pos m p. (0, m, record p { seek = pos });
  allocate_pages = λ pages address m p.
      let t = leb p.page_next address && leb one_mib address in
      (
        (outcome t, address),
        m,
        record p { ok = p.ok && t; page_next = if t then address + 4096 * pages else p.page_next },
      );
  allocate_pool = λ size old m p.
      let t = leb 8 p.pool_next && leb (p.pool_next + size) one_mib in
      (
        (outcome t, p.pool_next),
        m,
        record p {
          ok = p.ok && t;
          pool_next = if t then p.pool_next + size else p.pool_next;
          blocks = λ c. if c == p.pool_next then size else p.blocks c;
        },
      );
  free_pool = λ b. fine 0;
  copy_mem = λ d s size m p. (0, block_copy s d size m, p);
  set_mem = λ b size v m p. (0, block_fill b v size m, p);
  get_memory_map = tell_map;
  exit_boot_services =
      λ handle key m p. (let t = key == p.pool_next in (outcome t, m, record p { left = t }));
  set_watchdog_timer = λ timeout code size buffer. fine 0;
  locate_handle_buffer = λ old. fine (0, 1, 0x800);
  open_protocol = λ handle agent old. fine (0, 0x900);
  locate_protocol = λ old. fine (0, 1);
  open_volume = λ protocol old. fine (0, 1);
  query_mode = λ protocol mode old. fine (0, 0xa00 + 0x40 * mode);
  set_mode = λ protocol mode. fine 0;
  clear_screen = fine 0;
  reset = λ extended. fine 0;
}

abbrev pub owned : Disk → ℕ → Bool
owned p a =
    ltb a 8 || ((ltb a p.pool_next && ltb a one_mib) || (leb one_mib a && ltb a p.page_next))

in_range :
    (f : ℕ → ℕ) (x b size i : ℕ)
    → i < size
    → (if inside b size (b + i) then f (b + i - b) else x) ≡ f i
in_range f x b size i lt = rw (minus b i) (ground arith)
  where
    minus : (b i : ℕ) → b + i - b ≡ i
    minus b i = omega arith

abbrev pub sample_view : View Disk
sample_view = record {
  Fine = λ p. p.ok ≡ true;
  Owned = λ p a. owned p a ≡ true;
  Page = λ p a. (ltb a 8 || (leb one_mib a && ltb a p.page_next)) ≡ true;
  position = λ p image. p.seek;
  block = λ p. p.blocks;
  file_size = λ image. length;
  file = λ image. content;
}

pub sample-Laws : Laws sample sample_view
unfolding block_copy block_fill
sample-Laws = record {
  open_file_law = λ dir name old m p ok. (ok, (λ a own. (own, refl), λ a page. page));
  close_law = λ image m p ok. (ok, refl, (λ a own. (own, refl), λ a page. page));
  set_position_law = λ image pos m p ok. (ok, refl, refl, (λ a own. (own, refl), λ a page. page));
  allocate_pages_law = λ pages address m p ok. (
    ground arith,
    ground arith,
    refl,
    λ image. refl,
    λ a h. (ground arith, ground arith, λ own. ground arith),
    (λ a own. (ground arith, refl), λ a page. ground arith),
  );
  allocate_pool_law = λ size old m p ok. (
    ground arith,
    ground arith,
    λ image. refl,
    ground arith,
    λ a h. (ground arith, λ own. ground arith),
    (λ a own. (ground arith, refl), λ a page. page),
  );
  read_law = λ image b size m p ok. (
    ok,
    refl,
    λ c. refl,
    λ fits i lt. in_range (λ t. content (p.seek + t)) (m (b + i)) b size i lt,
    (λ a own. (own, λ out. ground arith), λ a page. page),
  );
  copy_mem_law = λ d s size m p ok. (
    ok,
    λ c. refl,
    λ i lt. in_range (λ t. m (s + t)) (m (d + i)) d size i lt,
    (λ a own. (own, λ out. ground arith), λ a page. page),
  );
  set_mem_law = λ b size v m p ok.
      (ok, λ i lt. ground arith, (λ a own. (own, λ out. ground arith), λ a page. page));
  free_pool_law = λ b m p ok. (ok, refl, λ a own out. (own, refl), λ a page. (page, refl));
}

abbrev pub sample_map : MapView Disk
sample_map = record {
  Fine = λ p. p.ok ≡ true;
  Left = λ p. p.left ≡ true;
  map_size = map_length;
  map = λ p. map_content;
  map_key = λ p. p.pool_next;
  descriptor_bytes = 48;
}

same_private : (b : ℕ) (info : MapInfo) (m : Memory) (p : Disk) → (tell_map b info m p).2 ≡ p
same_private b info m p = elim (Bool-cases (ltb info.size (map_length p))) [
  | inl small ↦ rw small refl
  | inr fits ↦ rw fits refl
]

pub sample-MapLaws : MapLaws sample sample_map
sample-MapLaws = record {
  same_state_law = same_private;
  too_small_law = λ b info m p lt.
      (let small : ltb info.size (map_length p) ≡ true = ground arith in
        rw small (refl, refl, refl));
  map_law = λ b info m p le.
      (let fits : ltb info.size (map_length p) ≡ false = ground arith in
        rw fits
          (refl, refl, refl, refl, λ i lt. in_range map_content (m (b + i)) b (map_length p) i lt));
  pool_law = λ size old m p ok. (ground arith, ground arith, ground arith);
  exit_law = λ handle key m p ok. (ok, λ current. (ground arith, ground arith, refl, refl, refl));
}
