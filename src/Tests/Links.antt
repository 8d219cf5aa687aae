-- ===== src/Tests/Links.antt =====
-- The theorems on the lists of original/list.c and on the checksum of original/packet.c, applied to
-- samples.
use enet_rs.Prelude.{◌-◌, ◌≡◌, refl, [], ◌∷◌, arith}
use enet_rs.Packet.Crc.{crc_table, crc_bytes, crc32, swap_bytes}
use enet_rs.Packet.Crc.Division.{no_bytes, a_byte, divide_bytes, crc32-division}
use enet_rs.Links.{Links, list_clear, list_insert, list_remove, list_size}
use enet_rs.Links.Refinement.{
  Represents, absent_none, absent_from, list_clear-Represents, list_insert-Represents,
}
use enet_rs.Links.Refinement.Again.{LeadsTo, list_insert-again}
use enet_rs.Links.Refinement.Removal.{list_remove-Represents, list_size-length}

-- A memory whose nodes all point to node 0; the list's sentinel is node 1.
abbrev raw_links : Links
raw_links = record { next = λ n. 0; previous = λ n. 0 }

abbrev empty_links : Links
empty_links = list_clear 1 raw_links

list_insert-Represents_example : Represents (list_insert 1 2 empty_links) 1 (2 ∷ [])
list_insert-Represents_example =
    list_insert-Represents empty_links 1 2 [] []
      (absent_from 1 [] (λ e. omega (arith, e)) absent_none) (list_clear-Represents raw_links 1)

abbrev one_link : Links
one_link = list_insert 1 2 empty_links

one_link-Represents : Represents one_link 1 (2 ∷ [])
one_link-Represents =
    list_insert-Represents empty_links 1 2 [] []
      (absent_from 1 [] (λ e. omega (arith, e)) absent_none) (list_clear-Represents raw_links 1)

list_remove-Represents_example : Represents (list_remove 2 one_link) 1 []
list_remove-Represents_example = list_remove-Represents one_link 1 2 [] [] one_link-Represents

list_size-length_example : list_size 5 1 one_link ≡ 1
list_size-length_example = list_size-length one_link 1 (2 ∷ []) 3 one_link-Represents

-- Node 2, inserted a second time.
list_insert-again_example :
    LeadsTo (list_insert 1 2 one_link) 1 [] 2 × ((list_insert 1 2 one_link).next 2 ≡ 2)
list_insert-again_example = list_insert-again one_link 1 2 [] [] one_link-Represents

crc32-division_example :
    crc32 (1 ∷ 254 ∷ []) ≡ swap_bytes (4294967295 - divide_bytes (1 ∷ 254 ∷ []) 4294967295)
crc32-division_example =
    crc32-division (1 ∷ 254 ∷ []) (a_byte 1 _ (omega arith) (a_byte 254 [] (omega arith) no_bytes))

-- The checksum of the digits 1 to 9, in the byte order of the network.
crc32_check : crc32 (49 ∷ 50 ∷ 51 ∷ 52 ∷ 53 ∷ 54 ∷ 55 ∷ 56 ∷ 57 ∷ []) ≡ 0x2639f4cb
unfolding crc32 crc_bytes crc_table
crc32_check = refl
