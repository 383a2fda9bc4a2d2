-- ===== src/Vm/Page/Walk.antt =====
-- page.c: what the walk over the copied list finds.
use cs.Base.{
  ℕ, zero, suc, ◌<◌, ◌≡◌, ◌≢◌, refl, sym, ap, ◌∙◌, false, Bool-cases, Option, none, some, List, [],
  ◌∷◌, ◌++◌, ◌==◌, if◌then◌else◌, ◌>>=◌, length, inl, inr, arith, In, In-append_right,
}
use cs.Kernel.Linked.{Heap, Ends, at}
use cs.Kernel.Linked.Chain.{Linked, Linked-rest, first_of, nodes, at_self, at_other}
use cs.Kernel.Linked.Refine.{Represents, apart_from}
use cs.Kernel.Linked.Size.{next_of, list_next_lem, list_next_tail}
use cs.Vm.Page.{SupPage, SupPages, copied, get_from, get_sup_page}

-- The first of the addresses where a page with that virtual address stands.
abbrev pub first_at : (ℕ → SupPage) → ℕ → List ℕ → Option ℕ
first_at page addr [] = none
first_at page addr (e ∷ es) = if (page e).v_addr == addr then some e else first_at page addr es

-- What the walk answers: a page, or it stops the kernel.
abbrev pub answer : Option ℕ → Option (Option ℕ)
answer none = none
answer (some e) = some (some e)

stands_apart : (e t : ℕ) → e ≢ t → (e == t) ≡ false
stands_apart e t ne = ground arith

get_from_lem :
    (h : Heap) (copy : Ends) (page : ℕ → SupPage) (addr fuel p t : ℕ) (xs : List ℕ)
    → Linked h (p ∷ (xs ++ t ∷ []))
    → h.next t ≡ none
    → ((x : ℕ) → In x (xs ++ t ∷ []) → x ≢ copy.tail)
    → length xs < fuel
    → get_from fuel h copy page addr (first_of xs t) ≡ answer (first_at page addr (xs ++ t ∷ []))
unfolding get_from
get_from_lem h copy page addr zero p t xs l stop out lt = absurd (omega arith)
get_from_lem h copy page addr (suc fuel) p t [] l stop out lt =
    elim (Bool-cases ((page t).v_addr == addr)) [
      | inl hit ↦ rw (stands_apart t copy.tail (out t (inl refl)), hit) refl
      | inr miss ↦
          rw (stands_apart t copy.tail (out t (inl refl)), miss, list_next_tail h t p l.1 stop) refl
    ]
get_from_lem h copy page addr (suc fuel) p t (x ∷ xs) l stop out lt =
    let rest : Linked h (x ∷ (xs ++ t ∷ [])) = l.2 in
    elim (Bool-cases ((page x).v_addr == addr)) [
      | inl hit ↦ rw (stands_apart x copy.tail (out x (inl refl)), hit) refl
      | inr miss ↦
          rw
            (
              stands_apart x copy.tail (out x (inl refl)),
              miss,
              list_next_lem h x p (first_of xs t) l.1 (next_of h x t xs rest),
            )
            (get_from_lem h copy page addr fuel x t xs rest stop (λ y i. out y (inr i))
              (omega arith))
    ]

-- The local variable is not one of the nodes of the list.
pub record IsLocal (copy : Ends) (ns : List ℕ) : Type 0 where
  pub head_out : ¬ In copy.head ns
  pub tail_out : ¬ In copy.tail ns
  pub apart : copy.tail ≢ copy.head

copied_same :
    (h : Heap) (list copy : Ends) (ns : List ℕ) (x : ℕ)
    → IsLocal copy ns
    → In x ns
    → ((copied h list copy).next x ≡ h.next x) × ((copied h list copy).prev x ≡ h.prev x)
copied_same h list copy ns x l i =
    let head : copy.head ≢ x = apart_from copy.head x ns l.head_out i in
    let tail : copy.tail ≢ x = apart_from copy.tail x ns l.tail_out i in
    (
      at_other (at h.next copy.head (h.next list.head)) copy.tail x (h.next list.tail) tail
          ∙ at_other h.next copy.head x (h.next list.head) head,
      at_other (at h.prev copy.head (h.prev list.head)) copy.tail x (h.prev list.tail) tail
          ∙ at_other h.prev copy.head x (h.prev list.head) head,
    )

copied_begin :
    (h : Heap) (list copy : Ends)
    → copy.tail ≢ copy.head
    → (copied h list copy).next copy.head ≡ h.next list.head
copied_begin h list copy ne =
    at_other (at h.next copy.head (h.next list.head)) copy.tail copy.head (h.next list.tail) ne
    ∙ at_self h.next copy.head (h.next list.head)

-- `get_sup_page` with a local copy of a list with the elements xs returns the first page of xs
-- with the virtual address. When there is none it never returns NULL: the copy has another tail
-- than the list, so the walk takes the memory at the list's tail for a page, and if the address
-- there is another one, the assertion of `list_next` fails.
pub get_sup_page-first_at :
    (fuel addr : ℕ) (copy : Ends) (s : SupPages) (xs : List ℕ)
    → Represents s.heap s.sup_page_table_list xs
    → IsLocal copy (nodes s.sup_page_table_list xs)
    → length xs < fuel
    → get_sup_page fuel copy addr s
      ≡ answer (first_at s.page addr (xs ++ s.sup_page_table_list.tail ∷ []))
unfolding get_sup_page
get_sup_page-first_at fuel addr copy s xs r l lt =
    let list = s.sup_page_table_list in
    let h = copied s.heap list copy in
    let same : (x : ℕ)
        → In x (nodes list xs)
        → (h.next x ≡ s.heap.next x) × (h.prev x ≡ s.heap.prev x) =
      λ x i. copied_same s.heap list copy (nodes list xs) x l i in
    let inside : In list.tail (xs ++ list.tail ∷ []) =
      In-append_right list.tail xs (list.tail ∷ []) (inl refl) in
    let start : h.next copy.head ≡ some (first_of xs list.tail) =
      copied_begin s.heap list copy l.apart ∙ next_of s.heap list.head list.tail xs r.linked in
    ap (λ b. b >>= get_from fuel h copy s.page addr) start
    ∙ get_from_lem h copy s.page addr fuel list.head list.tail xs
        (Linked-rest s.heap h list.head (xs ++ list.tail ∷ []) (λ x i. (same x i).0)
          (λ x i. (same x (inr i)).1) r.linked)
        ((same list.tail (inr inside)).0 ∙ r.stops)
        (λ x i e. apart_from copy.tail x (nodes list xs) l.tail_out (inr i) (sym e)) lt
