-- ===== src/Packets/Listing/Names.antt =====
-- The list of names in a `ListM3`, from the server's string to the client's.
use foc_project.Prelude.{
  ℕ, ◌+◌, ◌-◌, ◌%◌, ◌<◌, ◌^◌, ◌≡◌, ◌≢◌, refl, ap, ◌∙◌, [], ◌∷◌, ◌++◌, arith, length, replicate,
  drop-replicate, length-replicate, suc,
}
use foc_project.Memory.{Buffer, Result, ok, undefined, ◌>>=◌, write, read_byte, c_string}
use foc_project.Memory.Laws.{
  NoNul, read-append, read-append_end, write-zeros, write-zeros_full, write_front, allocate_small,
  c_string-append, c_string_unterminated,
}
use foc_project.Words.{widen}
use foc_project.Packets.Codes.{list_req}
use foc_project.Packets.Listing.M3.{
  ListM3, make, get_size, serialize, set_file_list_data, deserialize, get_file_list_data, new_array,
}

-- The message with its array.
abbrev filled : ℕ → Buffer → ListM3
filled junk text = record {
  command_code = list_req;
  file_list_size = length text;
  file_list_data = text ++ (junk ∷ []);
}

module _ (junk : ℕ) (text : Buffer) (small : length text < 0x7fff_ffff) where
  new_array_filled : write (new_array junk (length text)) 0 text ≡ ok (text ++ (junk ∷ []))
  unfolding replicate
  new_array_filled =
      let size : (length text + 1) % 2 ^ 32 ≡ length text + 1 = omega arith in
      let one : (length text + 1) - length text ≡ 1 = omega arith in
      rw (size) (
        write_front (replicate (length text + 1) junk) text
          (omega (arith, length-replicate (length text + 1) junk))
        ∙ ap (λ b. ok (text ++ b))
            (drop-replicate (length text) (length text + 1) junk ∙ ap (λ n. replicate n junk) one))

  set_lem : set_file_list_data junk (make (length text)) text ≡ ok (filled junk text)
  unfolding set_file_list_data make
  set_lem = rw (read-append [] text (0 ∷ []) 0 (length text) refl refl, new_array_filled) refl

  serialize_lem : serialize (filled junk text) ≡ ok (list_req ∷ text)
  unfolding serialize get_size widen
  serialize_lem =
      let size : get_size (filled junk text) ≡ suc (length text) = ground arith in
      rw (
        size,
        allocate_small (suc (length text)) (omega arith),
        write-zeros [] (list_req ∷ []) 0 (suc (length text)) (length text) refl (omega arith),
        read-append [] text (junk ∷ []) 0 (length text) refl refl,
        write-zeros_full (list_req ∷ []) text 1 (length text) refl refl,
      )

  deserialize_lem : deserialize junk (make (length text)) (list_req ∷ text) ≡ ok (filled junk text)
  unfolding deserialize make read_byte
  deserialize_lem =
      rw (read-append_end (list_req ∷ []) text 1 (length text) refl refl, new_array_filled) refl

NoNul-append : (text : Buffer) (b : ℕ) → NoNul text → b ≢ 0 → NoNul (text ++ (b ∷ []))
NoNul-append [] b h n = (n, tt)
NoNul-append (c ∷ cs) b h n = (h.0, NoNul-append cs b h.1 n)

-- What the client makes of the server's names.
abbrev pub listed : ℕ → ℕ → Buffer → Result Buffer
listed junk junk' text =
    set_file_list_data junk (make (length text)) text
    >>= serialize
    >>= deserialize junk' (make (length text))
    >>= get_file_list_data

listed_lem :
    (junk junk' : ℕ) (text : Buffer)
    → length text < 0x7fff_ffff
    → listed junk junk' text ≡ c_string (text ++ (junk' ∷ []))
unfolding get_file_list_data
listed_lem junk junk' text small =
    rw (set_lem junk text small, serialize_lem junk text small, deserialize_lem junk' text small)
      refl

-- The list of names that the server sets and sends is read by the client as the same string if
-- the byte behind the array of the client happens to be 0, and past the end of the array
-- otherwise. The names have no 0 and fewer than 2^31 - 1 bytes.
pub listed-c_string :
    (junk junk' : ℕ) (text : Buffer)
    → length text < 0x7fff_ffff
    → NoNul text
    → (junk' ≡ 0 → listed junk junk' text ≡ ok text)
      × (junk' ≢ 0 → listed junk junk' text ≡ undefined)
listed-c_string junk junk' text small names = (
  λ e.
      listed_lem junk junk' text small
      ∙ (ap (λ j. c_string (text ++ (j ∷ []))) e ∙ c_string-append text [] names),
  λ n.
      listed_lem junk junk' text small
      ∙ c_string_unterminated (text ++ (junk' ∷ [])) (NoNul-append text junk' names n),
)
