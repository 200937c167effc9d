-- ===== src/Text/Tests.antt =====
-- Runs of the number printers, and the theorems at concrete numbers.
use flosp_os.Common.{ℕ, ◌≡◌, refl, codes, true, ◌^◌, ◌-◌, ◌++◌, arith}
use flosp_os.Common.Run.{done}
use flosp_os.Text.{Text, kprint_num, kprint_hex, kprint_bin}
use flosp_os.Text.Numeral.{IsNumeral}
use flosp_os.Text.Numbers.{kprint_num-IsNumeral, kprint_hex-IsNumeral}

abbrev garbage : ℕ → ℕ
garbage i = 7

num_120 : kprint_num garbage 120 ≡ done (codes "120")
unfolding kprint_num
num_120 = refl

num_largest : kprint_num garbage (10 ^ 19 - 1) ≡ done (codes "9999999999999999999")
unfolding kprint_num
num_largest = refl

hex_beef : kprint_hex garbage 0xdeadbeef true ≡ done (codes "0xDEADBEEF")
unfolding kprint_hex
hex_beef = refl

bin_5 : kprint_bin garbage 5 1 ≡ done (codes "00000101")
unfolding kprint_bin
bin_5 = refl

bin_0 : kprint_bin garbage 0 1 ≡ done (codes "000000000")
unfolding kprint_bin
bin_0 = refl

kprint_num-IsNumeral_example : (s : Text) × (kprint_num garbage 2024 ≡ done s) × IsNumeral 10 2024 s
kprint_num-IsNumeral_example = kprint_num-IsNumeral garbage 2024 (omega arith)

kprint_hex-IsNumeral_example :
    (s : Text) × (kprint_hex garbage 0xcafe true ≡ done (codes "0x" ++ s)) × IsNumeral 16 0xcafe s
kprint_hex-IsNumeral_example = kprint_hex-IsNumeral garbage 0xcafe true (omega arith)
