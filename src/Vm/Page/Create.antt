-- ===== src/Vm/Page/Create.antt =====
-- page.c: a new page is found again.
use cs.Base.{
  ℕ, ◌<◌, ◌≡◌, ◌≢◌, refl, sym, ap, ◌∙◌, subst, true, false, Bool, none, some, List, [], ◌∷◌, ◌++◌,
  ◌==◌, length, inl, inr, arith, In, In-append_left,
}
use mathlib.Core.List.{append-nil}
use cs.Kernel.Linked.{Ends, list_push_back}
use cs.Kernel.Linked.Chain.{nodes}
use cs.Kernel.Linked.Refine.{Represents, Frame, list_insert-Represents, apart_from}
use cs.Vm.Page.{SupPage, SupPages, in_memory, set_page, create_sup_page, add_sup_page, get_sup_page}
use cs.Vm.Page.Walk.{first_at, answer, IsLocal, get_sup_page-first_at}

-- The page that `create_sup_page` makes.
abbrev pub fresh : ℕ → ℕ → ℕ → ℕ → ℕ → Bool → SupPage
fresh f ofs addr r_bytes z_bytes write = record {
  swap_index = none;
  v_addr = addr;
  file = f;
  offset = ofs;
  read_bytes = r_bytes;
  zero_bytes = z_bytes;
  writable = write;
  page_location = in_memory;
}

first_at_last :
    (page : ℕ → SupPage) (addr a : ℕ) (xs more : List ℕ)
    → ((x : ℕ) → In x xs → (page x).v_addr ≢ addr)
    → (page a).v_addr ≡ addr
    → first_at page addr ((xs ++ a ∷ []) ++ more) ≡ some a
first_at_last page addr a [] more none_before e =
    let here : ((page a).v_addr == addr) ≡ true = ground arith in rw here refl
first_at_last page addr a (x ∷ xs) more none_before e =
    let ne : (page x).v_addr ≢ addr = none_before x (inl refl) in
    let other : ((page x).v_addr == addr) ≡ false = ground arith in
    rw other (first_at_last page addr a xs more (λ y i. none_before y (inr i)) e)

page_new : (s : SupPages) (a : ℕ) (p : SupPage) → (set_page s a p).page a ≡ p
page_new s a p = let here : (a == a) ≡ true = ground arith in rw here refl

page_kept : (s : SupPages) (a x : ℕ) (p : SupPage) → a ≢ x → (set_page s a p).page x ≡ s.page x
page_kept s a x p ne = let other : (a == x) ≡ false = ground arith in rw other refl

-- `create_sup_page` with storage of its own, for a virtual address that no page of the list has,
-- appends the page to the list and changes no other page and no other pointer; `get_sup_page`,
-- whose local copy of the list is none of its nodes, then returns it.
pub create_sup_page-get_sup_page :
    (a f ofs addr r_bytes z_bytes : ℕ) (write : Bool) (s : SupPages) (xs : List ℕ) (fuel : ℕ)
    (copy : Ends)
    → Represents s.heap s.sup_page_table_list xs
    → ¬ In a (nodes s.sup_page_table_list xs)
    → ((x : ℕ) → In x xs → (s.page x).v_addr ≢ addr)
    → IsLocal copy (nodes s.sup_page_table_list (xs ++ a ∷ []))
    → length (xs ++ a ∷ []) < fuel
    → (s' : SupPages) × (create_sup_page (some a) f ofs addr r_bytes z_bytes write s ≡ some (a, s'))
      × (s'.page ≡ (set_page s a (fresh f ofs addr r_bytes z_bytes write)).page)
      × Represents s'.heap s.sup_page_table_list (xs ++ a ∷ [])
      × Frame s.heap s'.heap (nodes s.sup_page_table_list xs) a
      × (get_sup_page fuel copy addr s' ≡ some (some a))
unfolding create_sup_page add_sup_page list_push_back
create_sup_page-get_sup_page a f ofs addr r_bytes z_bytes write s xs fuel copy r new unused l lt =
    let list = s.sup_page_table_list in
    let made = fresh f ofs addr r_bytes z_bytes write in
    let s1 = set_page s a made in
    let (h', e, r', frame) =
      list_insert-Represents s.heap list xs [] a
        (subst (Represents s.heap list) (sym (append-nil xs)) r)
        (subst (λ ys. ¬ In a (nodes list ys)) (sym (append-nil xs)) new) in
    let s' : SupPages = record s1 { heap = h' } in
    (
      s',
      rw e refl,
      refl,
      r',
      subst (λ ys. Frame s.heap h' (nodes list ys) a) (append-nil xs) frame,
      get_sup_page-first_at fuel addr copy s' (xs ++ a ∷ []) r' l lt
          ∙ ap answer (
              first_at_last s'.page addr a xs (list.tail ∷ [])
                (λ x i e'. unused x i (
                  sym (
                    ap (λ p. p.v_addr)
                      (page_kept s a x made (
                        apart_from a x xs (λ j. new (inr (In-append_left a xs (list.tail ∷ []) j)))
                          i)))
                  ∙ e'))
                (ap (λ p. p.v_addr) (page_new s a made))),
    )
