-- ===== src/Boot/Uefi.antt =====
-- What the loader relies on of the firmware: the documented effect of each service that has not
-- failed. The statuses of CopyMem and SetMem are left open, as they return nothing.
use flosp_os.Common.{ℕ, ◌+◌, ◌*◌, ◌≤◌, ◌<◌, ◌≡◌, true, false}
use flosp_os.Mem.{Memory}
use flosp_os.Text.{Text}
use flosp_os.Mem.Words.{inside}
use flosp_os.Boot.Efi.{Firmware}
use flosp_os.Boot.Codes.{efi_success}

-- What a state of the firmware says. `Fine p`: no service has failed up to `p`. `Owned p a`: the byte
-- at `a` is the loader's. `Page p a`: it is in a page that the loader has allocated. `block p b`: the size of the
-- block of the pool at `b`.
pub record View (P : Type 0) : Type 1 where
  pub Fine : P → Type 0
  pub Owned : P → ℕ → Type 0
  pub Page : P → ℕ → Type 0
  pub position : P → ℕ → ℕ
  pub block : P → ℕ → ℕ
  pub file_size : ℕ → ℕ
  pub file : ℕ → ℕ → ℕ

module _ {P : Type 0} (u : View P) where
  -- What is owned stays so, and only the bytes of the range can change.
  abbrev pub Keeps : ℕ → ℕ → Memory → P → Memory → P → Type 0
  Keeps d n m p m' p' =
      ((a : ℕ) → u.Owned p a → u.Owned p' a × (inside d n a ≡ false → m' a ≡ m a))
      × ((a : ℕ) → u.Page p a → u.Page p' a)

  abbrev pub KeepsAll : Memory → P → Memory → P → Type 0
  KeepsAll m p m' p' =
      ((a : ℕ) → u.Owned p a → u.Owned p' a × (m' a ≡ m a)) × ((a : ℕ) → u.Page p a → u.Page p' a)

module _ {P : Type 0} (fw : Firmware P) (u : View P) where
  pub record Laws : Type 0 where
    pub open_file_law :
        (dir : ℕ) (name : Text) (old : ℕ) (m : Memory) (p : P)
        → (let (_, m', p') = fw.open_file dir name old m p in
            u.Fine p' → u.Fine p × KeepsAll u m p m' p')
    pub close_law :
        (image : ℕ) (m : Memory) (p : P)
        → (let (status, m', p') = fw.close image m p in
            u.Fine p' → u.Fine p × (status ≡ efi_success) × KeepsAll u m p m' p')
    pub set_position_law :
        (image pos : ℕ) (m : Memory) (p : P)
        → (let (status, m', p') = fw.set_position image pos m p in
            u.Fine p'
            → u.Fine p
              × (status ≡ efi_success)
              × (u.position p' image ≡ pos)
              × KeepsAll u m p m' p')
    pub allocate_pages_law :
        (pages address : ℕ) (m : Memory) (p : P)
        → (let ((status, address'), m', p') = fw.allocate_pages pages address m p in
            u.Fine p'
            → u.Fine p
              × (status ≡ efi_success)
              × (address' ≡ address)
              × ((image : ℕ) → u.position p' image ≡ u.position p image)
              × ((a : ℕ)
                  → inside address (4096 * pages) a ≡ true
                  → u.Page p' a × u.Owned p' a × ¬ (u.Owned p a))
              × KeepsAll u m p m' p')
    pub allocate_pool_law :
        (size old : ℕ) (m : Memory) (p : P)
        → (let ((status, b), m', p') = fw.allocate_pool size old m p in
            u.Fine p'
            → u.Fine p
              × (status ≡ efi_success)
              × ((image : ℕ) → u.position p' image ≡ u.position p image)
              × (u.block p' b ≡ size)
              × ((a : ℕ) → inside b size a ≡ true → u.Owned p' a × ¬ (u.Owned p a))
              × KeepsAll u m p m' p')
    pub read_law :
        (image b size : ℕ) (m : Memory) (p : P)
        → (let ((status, count), m', p') = fw.read image b size m p in
            u.Fine p'
            → u.Fine p
              × (status ≡ efi_success)
              × ((c : ℕ) → u.block p' c ≡ u.block p c)
              × (u.position p image + size ≤ u.file_size image
                  → (i : ℕ) → i < size
                  → m' (b + i) ≡ u.file image (u.position p image + i))
              × Keeps u b size m p m' p')
    pub copy_mem_law :
        (d s size : ℕ) (m : Memory) (p : P)
        → (let (status, m', p') = fw.copy_mem d s size m p in
            u.Fine p'
            → u.Fine p
              × ((c : ℕ) → u.block p' c ≡ u.block p c)
              × ((i : ℕ) → i < size → m' (d + i) ≡ m (s + i))
              × Keeps u d size m p m' p')
    pub set_mem_law :
        (b size v : ℕ) (m : Memory) (p : P)
        → (let (status, m', p') = fw.set_mem b size v m p in
            u.Fine p' → u.Fine p × ((i : ℕ) → i < size → m' (b + i) ≡ v) × Keeps u b size m p m' p')
    pub free_pool_law :
        (b : ℕ) (m : Memory) (p : P)
        → (let (status, m', p') = fw.free_pool b m p in
            u.Fine p'
            → u.Fine p
              × (status ≡ efi_success)
              × ((a : ℕ)
                  → u.Owned p a
                  → inside b (u.block p b) a ≡ false
                  → u.Owned p' a × (m' a ≡ m a))
              × ((a : ℕ) → u.Page p a → u.Page p' a × (m' a ≡ m a)))
