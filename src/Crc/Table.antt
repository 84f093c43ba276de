-- ===== src/Crc/Table.antt =====
-- The table is the one that the routines for building it compute.
use estimators.Prelude.{
  ℕ, zero, suc, ◌+◌, ◌%◌, ◌^◌, ◌≡◌, refl, List, [], ◌∷◌, ◌<◌, get_or, arith, ap, ◌∙◌, sym, subst,
}
use estimators.Crc.{crc_build_table_entry, crc_c}

-- The entries that `crc_generateTable` prints, as `unsigned int`, from index `i` on.
abbrev pub entries : ℕ → ℕ → List ℕ
entries zero i = []
entries (suc n) i = crc_build_table_entry i % 2 ^ 32 ∷ entries n (i + 1)

crc_c-entries : crc_c ≡ entries 256 0
unfolding crc_build_table_entry
crc_c-entries = refl

get_or-entries :
    (n i j : ℕ) → j < n → get_or (entries n i) j 0 ≡ crc_build_table_entry (i + j) % 2 ^ 32
get_or-entries zero i j h = absurd (omega arith)
get_or-entries (suc n) i zero h = ap (λ k. crc_build_table_entry k % 2 ^ 32) (omega arith)
get_or-entries (suc n) i (suc j) h =
    get_or-entries n (i + 1) j (omega arith)
    ∙ ap (λ k. crc_build_table_entry k % 2 ^ 32) (omega arith)

-- Each of the 256 entries of the table is the one that `crc_buildTableEntry` computes for its index,
-- as the 32 bits that the generator prints of it.
pub crc_c-entry : (i : ℕ) → i < 256 → get_or crc_c i 0 ≡ crc_build_table_entry i % 2 ^ 32
crc_c-entry i h =
    subst (λ t. get_or t i 0 ≡ crc_build_table_entry i % 2 ^ 32) (sym crc_c-entries)
      (get_or-entries 256 0 i h ∙ ap (λ k. crc_build_table_entry k % 2 ^ 32) (omega arith))
