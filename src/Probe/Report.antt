-- ===== src/Probe/Report.antt =====
-- The end of `efi_main` of tools/efi-inventory/probe.c: what is printed and what is returned.
use muen_orin.Base.{
  ℕ, List, [], ◌∷◌, ◌++◌, Option, none, some, true, false, not, ◌==◌, if◌then◌else◌, ◌>>=◌, codes,
}
use muen_orin.Efi.{efi_error, efi_success, efi_buffer_too_small}
use muen_orin.Writer.Put.{Writer}
use muen_orin.Probe.World.{World}
use muen_orin.Probe.Console.{Output, print}

abbrev pub line_end : List ℕ
line_end = 13 ∷ 10 ∷ []

abbrev pub banner : List ℕ
banner = codes "EFI inventory Phase A: boot-services snapshot; returning to caller" ++ line_end

abbrev pub truncation_marker : List ℕ
truncation_marker = codes "{\"schema\":2,\"record_truncated\":true}" ++ line_end

-- The bytes in front of the first NUL: what a pointer to the array passes as a text. Without a
-- NUL the text would run out of the array.
unfoldable pub c_string : List ℕ → Option (List ℕ)
c_string [] = none
c_string (c ∷ cs) = if c == 0 then some [] else (c_string cs >>= λ s. some (c ∷ s))

module _ {σ : Type 0} (out : Option (Output σ)) where
  -- `print`, and the rest of the function unless the console reports an error.
  unfoldable pub print_then :
      List ℕ → (World σ → Option (ℕ × World σ)) → World σ → Option (ℕ × World σ)
  print_then s rest w =
      print out s w >>= λ r. elim (efi_error r.0) [ true ↦ some r | false ↦ rest r.1 ]

  unfoldable pub report : ℕ → Writer → World σ → Option (ℕ × World σ)
  report release_status record_writer = print_then banner λ w. elim record_writer.is_truncated [
    | true ↦
        print_then truncation_marker
          (λ w. some (
            (if not (release_status == efi_success) then release_status else efi_buffer_too_small),
            w,
          ))
          w
    | false ↦ c_string record_writer.data_bytes >>= λ s.
        print_then s (print_then line_end (λ w. some (release_status, w))) w
  ]
