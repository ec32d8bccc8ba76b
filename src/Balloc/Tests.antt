-- ===== src/Balloc/Tests.antt =====
-- Allocation on a small bitmap.
use pp.Prelude.{ℕ, List, ◌≤◌, ◌≡◌, refl, some, [], ◌∷◌, length}
use pp.Balloc.{Bitmap, alloc_blocks, alloc_bits, next_block, find_free, relse_blocks}
use pp.Balloc.Released.{alloc_blocks-released}

abbrev some_free : Bitmap
some_free = 1 ∷ 0 ∷ 1 ∷ 0 ∷ 0 ∷ []

abbrev after_two : Bitmap
after_two = 1 ∷ 1 ∷ 1 ∷ 1 ∷ 0 ∷ []

abbrev given : List ℕ
given = 101 ∷ 103 ∷ []

two_blocks : alloc_blocks 100 2 some_free ≡ some (after_two, given)
unfolding alloc_blocks alloc_bits next_block find_free
two_blocks = refl

alloc_blocks-released_example :
    (2 ≤ length given) × (relse_blocks 100 given after_two ≡ some some_free)
alloc_blocks-released_example = alloc_blocks-released 100 2 some_free after_two given two_blocks
