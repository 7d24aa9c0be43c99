-- ===== src/Layout/Offsets.antt =====
-- The generated constants are those of the structs, whose members lie apart and aligned.
use go_data_reqrep_shared.Base.{ℕ, ◌%◌, ◌≤◌, ◌≡◌, refl, List, [], ◌∷◌, map, arith}
use go_data_reqrep_shared.Layout.Generated.{
  Kind, align, Label, Member, byte, word, long, size_of, start, end, extent, header_members,
  req_slot_members, resp_slot_members, gen_layout, go_constant,
}

-- The members follow each other from `n` on, each aligned to the size of its elements, up to `size`.
abbrev Placed : ℕ → ℕ → List Member → Type 0
Placed size n [] = n ≤ size
Placed size n (m ∷ ms) =
    (n ≤ start n m) × (start n m % size_of m.kind ≡ 0) × Placed size (end n m) ms

align_lem : (k : Kind) (n : ℕ) → (n ≤ align n (size_of k)) × (align n (size_of k) % size_of k ≡ 0)
align_lem byte n = (omega arith, omega arith)
align_lem word n = (omega arith, omega arith)
align_lem long n = (omega arith, omega arith)

extent-Placed : (ms : List Member) (n size : ℕ) → extent n ms ≤ size → Placed size n ms
extent-Placed [] n size h = h
extent-Placed (m ∷ ms) n size h =
    let (later, aligned) = align_lem m.kind n in (later, aligned, extent-Placed ms (end n m) size h)

-- Every constant that the generator prints is the one of the Go file, and in the three structs, of
-- 256, 24 and 32 bytes, the members follow each other without overlap, each aligned to the size of its
-- elements.
gen_layout-Placed :
    (map (λ (e : Label × ℕ). go_constant e.0) gen_layout ≡ map (λ (e : Label × ℕ). e.1) gen_layout)
    × Placed 256 0 header_members
    × Placed 24 0 req_slot_members
    × Placed 32 0 resp_slot_members
unfolding gen_layout go_constant
gen_layout-Placed = (
  refl,
  extent-Placed header_members 0 256 (omega arith),
  extent-Placed req_slot_members 0 24 (omega arith),
  extent-Placed resp_slot_members 0 32 (omega arith),
)
