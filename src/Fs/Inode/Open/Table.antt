-- ===== src/Fs/Inode/Open/Table.antt =====
-- inode.c: the list of open inodes has one structure for each sector.
use cs.Base.{
  ℕ, ◌+◌, ◌≡◌, refl, sym, ap, ◌∙◌, subst, ◌⊎◌, inl, inr, Bool, true, false, Option, none, some,
  List, [], ◌∷◌, ◌==◌, if◌then◌else◌, Bool-cases, arith, In, Distinct, ◌>>=◌, bind_assoc,
}
use cs.Fs.Device.{as_header, block_read, InodeDisk}
use cs.Fs.FreeMap.{Fs}
use cs.Fs.Inode.{Inode}
use cs.Fs.Inode.Open.{inode_open, inode_reopen, reopen_from}

abbrev pub sectors : List Inode → List ℕ
sectors [] = []
sectors (inode ∷ rest) = inode.sector ∷ sectors rest

-- How often an inode of the sector is open.
abbrev pub openers : List Inode → ℕ → ℕ
openers [] s = 0
openers (inode ∷ rest) s = (if inode.sector == s then inode.open_cnt else 0) + openers rest s

-- What the loop of `inode_open` does to the list.
abbrev pub Reopens : List Inode → ℕ → Type 0
Reopens table s =
    ((table' : List Inode) × (reopen_from table s ≡ some table')
      × (sectors table' ≡ sectors table)
      × In s (sectors table)
      × (Distinct (sectors table) → openers table' s ≡ openers table s + 1))
    ⊎ ((reopen_from table s ≡ none) × ¬ In s (sectors table))

not_open : (table : List Inode) (s : ℕ) → ¬ In s (sectors table) → openers table s ≡ 0
not_open [] s out = refl
not_open (inode ∷ rest) s out = elim (Bool-cases (inode.sector == s)) [
  | inl hit ↦ absurd (out (inl (ground arith)))
  | inr miss ↦ rw miss (omega (arith, not_open rest s (λ i. out (inr i))))
]

reopen_from-Reopens : (table : List Inode) (s : ℕ) → Reopens table s
unfolding reopen_from inode_reopen
reopen_from-Reopens [] s = inr (refl, λ n. n)
reopen_from-Reopens (inode ∷ rest) s = elim (Bool-cases (inode.sector == s)) [
  | inl hit ↦
      let e : s ≡ inode.sector = ground arith in
      inl (
        record inode { open_cnt = inode.open_cnt + 1 } ∷ rest,
        rw hit refl,
        refl,
        inl e,
        λ d. rw hit (omega arith),
      )
  | inr miss ↦ elim (reopen_from-Reopens rest s) [
    | inl (rest', er, es, i, c) ↦ inl (
      inode ∷ rest',
      rw (miss, er) refl,
      ap (λ l. inode.sector ∷ l) es,
      inr i,
      λ d. rw miss (omega (arith, c d.1)),
    )
    | inr (er, out) ↦
        inr (rw (miss, er) refl, λ i. elim i [ inl z ↦ no_hit z miss | inr k ↦ out k ])
  ]
]
  where
    no_hit : s ≡ inode.sector → (inode.sector == s) ≡ false → ⊥
    no_hit z m = ground arith

-- An open of a sector that could be carried out.
abbrev pub Opens : List Inode → ℕ → Fs → Type 0
Opens table s fs =
    (table' : List Inode) × (inode_open true table s fs ≡ some (true, table'))
    × Distinct (sectors table')
    × In s (sectors table')
    × (openers table' s ≡ openers table s + 1)

-- When no sector has two structures in the list, `inode_open` of a sector that holds an inode, or
-- zeros, keeps it so, with enough memory: the sector has a structure then, with an opener more.
pub inode_open-Opens :
    (table : List Inode) (s : ℕ) (fs : Fs) (content : InodeDisk)
    → Distinct (sectors table)
    → (block_read fs.device s >>= as_header) ≡ some content
    → Opens table s fs
unfolding inode_open
inode_open-Opens table s fs content d readable = elim (reopen_from-Reopens table s) [
  | inl (table', e, es, i, c) ↦
      (table', rw (inode_open, e) refl, subst Distinct (sym es) d, subst (In s) (sym es) i, c d)
  | inr (e, out) ↦
      let here : (s == s) ≡ true = ground arith in
      (
        record { sector = s; open_cnt = 1; removed = false; deny_write_cnt = 0; content = content }
            ∷ table,
        rw (inode_open, e)
            (sym (bind_assoc (block_read fs.device s) as_header found)
              ∙ ap (λ m. m >>= found) readable),
        (out, d),
        inl refl,
        rw here (omega (arith, not_open table s out)),
      )
]
  where
    found : InodeDisk → Option (Bool × List Inode)
    found c = some (
      true,
      record { sector = s; open_cnt = 1; removed = false; deny_write_cnt = 0; content = c } ∷ table,
    )
