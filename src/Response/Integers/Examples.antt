-- ===== src/Response/Integers/Examples.antt =====
-- internal/response/ordered_map.go: the numbers, at concrete inputs.
use go_odata.Prelude.{◌≤◌, codes, itoa, negsuc, print_nat, length, ◌≡◌, refl, arith}
use go_odata.Response.Integers.{write_digits, write_int, write_uint, write_int-itoa}

write_int_test : write_int 0xfffffffffffffffe ≡ codes "-2"
unfolding write_int write_digits
write_int_test = refl

write_int-itoa_example :
    (write_int 0xfffffffffffffed4 ≡ itoa (negsuc 299))
    × (write_uint 0xfffffffffffffed4 ≡ print_nat 0xfffffffffffffed4)
    × (length (write_int 0xfffffffffffffed4) ≤ 20)
    × (length (write_uint 0xfffffffffffffed4) ≤ 20)
write_int-itoa_example = write_int-itoa 0xfffffffffffffed4 (omega arith)
