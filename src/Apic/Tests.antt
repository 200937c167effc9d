-- ===== src/Apic/Tests.antt =====
-- The theorems on apic.c at concrete addresses.
use flosp_os.Common.{◌*◌, ◌%◌, ◌≡◌, ◌==◌}
use flosp_os.Common.Run.{done}
use flosp_os.Mem.{Memory}
use flosp_os.Machine.{value, ◌>>◌}
use flosp_os.Machine.Sample.{machine}
use flosp_os.Apic.{validate_rsdp, lapic_set_base, lapic_get_base}
use flosp_os.Apic.Base.{byte_sum, lapic_get_base-set_base, validate_rsdp-byte_sum}

abbrev table : Memory
table a = a * 77 % 256

-- The base that firmware chooses is kept.
lapic_get_base-set_base_example :
    value ((lapic_set_base 0xfee00000 >> lapic_get_base) machine) ≡ done 0xfee00000
lapic_get_base-set_base_example = lapic_get_base-set_base 0xfee00000 machine

validate_rsdp-byte_sum_example :
    validate_rsdp table 0x1000 36 ≡ (byte_sum table 36 0x1000 % 256 == 0)
validate_rsdp-byte_sum_example = validate_rsdp-byte_sum table 0x1000 36
