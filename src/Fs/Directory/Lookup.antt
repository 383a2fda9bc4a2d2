-- ===== src/Fs/Directory/Lookup.antt =====
-- directory.c, `lookup`: it finds the first entry with the name.
use native.Mathlib.Decide.{ℕ_discrete}
use cs.Base.{
  ℕ, zero, suc, ◌+◌, ◌*◌, ◌≤◌, ◌<◌, ◌≡◌, ◌≢◌, refl, sym, ap, ◌∙◌, subst, true, false, Bool-cases,
  inl, inr, Option, none, some, some-injective, List, ◌==◌, drop, length, arith,
}
use cs.Fs.Device.{Device, InodeDisk}
use cs.Fs.Inode.Access.{read_at}
use cs.Fs.Inode.Access.Read.{read_at-Reads}
use cs.Fs.Directory.{in_use, text_of, same_text, has_name, lookup_from, lookup, rounds}
use cs.Fs.Directory.Entry.{same_text_self, same_text-equal}
use cs.Fs.Directory.Slots.{IsDirectory, IsAt, read_at-length, read_at_once}

module _ (d : Device) (content : InodeDisk) (name : List ℕ) where
  -- What a lookup from the entry i on answers: the first entry with the name, or that there is none.
  abbrev pub Finds : ℕ → Option (List ℕ × ℕ) → Type 0
  Finds i none = (j : ℕ) → i ≤ j → (e : List ℕ) → ¬ IsAt d content name j e
  Finds i (some (e, ofs)) =
      (k : ℕ) × (i ≤ k)
      × (ofs ≡ 20 * k)
      × IsAt d content name k e
      × ((j : ℕ) → i ≤ j → j < k → (e' : List ℕ) → ¬ IsAt d content name j e')

  -- An entry that is not the one looked for is passed.
  Finds-pass :
      (i : ℕ) (r : Option (List ℕ × ℕ))
      → ((e : List ℕ) → ¬ IsAt d content name i e)
      → Finds (i + 1) r
      → Finds i r
  Finds-pass i none here f = λ j le e a. elim (ℕ_discrete i j) [
    | yes same ↦ here e (subst (λ k. IsAt d content name k e) (sym same) a)
    | no other ↦ f j (omega (arith, le, other)) e a
  ]
  Finds-pass i (some (e, ofs)) here (k, le, at, a, before) = (
    k,
    omega (arith, le),
    at,
    a,
    λ j lo hi e' a'. elim (ℕ_discrete i j) [
      | yes same ↦ here e' (subst (λ k'. IsAt d content name k' e') (sym same) a')
      | no other ↦ before j (omega (arith, lo, other)) hi e' a'
    ],
  )

  module _ (dir : IsDirectory d content) where
    -- Behind the last whole entry there is no other.
    past_end :
        (i j : ℕ) (e e' : List ℕ)
        → read_at true d content 20 (20 * i) ≡ some e
        → length e ≢ 20
        → i ≤ j
        → ¬ IsAt d content name j e'
    past_end i j e e' reads short le a =
        let l = read_at-length d content (20 * i) e dir.readable reads in
        let l' = read_at-length d content (20 * j) e' dir.readable a.reads in
        short (omega (arith, l, l', a.full, le))

    lookup_from-Finds :
        (fuel i ofs : ℕ)
        → ofs ≡ 20 * i
        → 20 * i ≤ content.length
        → content.length < 20 * (i + fuel)
        → (r : Option (List ℕ × ℕ)) × (lookup_from true d content name fuel ofs ≡ some r)
          × Finds i r
    unfolding lookup_from has_name
    lookup_from-Finds zero i ofs at near enough = absurd (omega (arith, near, enough))
    lookup_from-Finds (suc fuel) i ofs at near enough =
        let (e, reads, _) = read_at-Reads d content 20 ofs dir.readable in
        let here : read_at true d content 20 (20 * i) ≡ some e =
          ap (read_at true d content 20) (sym at) ∙ reads in
        elim (Bool-cases (length e == 20)) [
          | inr short ↦ (
            none,
            rw (reads, short) refl,
            λ j le e' a.
                past_end i j e e' here (let not_full : length e ≢ 20 = ground arith in not_full) le
                  a,
          )
          | inl full ↦
              let len : length e ≡ 20 = ground arith in
              let all = read_at-length d content ofs e dir.readable reads in
              let (r, e_later, f) =
                lookup_from-Finds fuel (i + 1) (ofs + 20) (omega (arith, at))
                  (omega (arith, at, len, all)) (omega (arith, enough)) in
              elim (Bool-cases (in_use e)) [
                | inr free ↦ (
                  r,
                  rw (reads, full, free) e_later,
                  Finds-pass i r
                      (λ e' a.
                        absurd (
                          cc (a.used, ap in_use (read_at_once d content name i e e' here a), free)))
                      f,
                )
                | inl used ↦
                    let (t, named) = dir.ends i e here len used in
                    elim (Bool-cases (same_text name t)) [
                      | inl same ↦ (
                        some (e, ofs),
                        rw (reads, full, used, named, same) refl,
                        (
                          i,
                          omega arith,
                          at,
                          record {
                            reads = here;
                            full = len;
                            used = used;
                            named = named ∙ ap some (sym (same_text-equal name t same));
                          },
                          λ j lo hi. absurd (omega (arith, lo, hi)),
                        ),
                      )
                      | inr other ↦ (
                        r,
                        rw (reads, full, used, named, other) e_later,
                        Finds-pass i r
                            (λ e' a. other_name t other (
                              some-injective _ _ (
                                sym (a.named)
                                ∙ ap (λ x. text_of (drop 4 x))
                                    (read_at_once d content name i e e' here a)
                                ∙ named)))
                            f,
                      )
                    ]
              ]
        ]
      where
        other_name : (t : List ℕ) → same_text name t ≡ false → ¬ (name ≡ t)
        other_name t other same =
            absurd (cc (other, ap (same_text name) (sym same), same_text_self name))

    -- `lookup` in a directory that can be read, where the name of every entry in use ends, ends: it
    -- finds the first entry in use that has the name, with its offset, or that there is none.
    pub lookup-Finds : (r : Option (List ℕ × ℕ)) × (lookup true d content name ≡ some r) × Finds 0 r
    unfolding lookup
    lookup-Finds = lookup_from-Finds (rounds content) 0 0 refl (omega arith) (omega arith)
