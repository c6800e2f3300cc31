-- ===== src/Client/Merge/Window.antt =====
-- The loaded list as a window on the server's list: a merge keeps it a prefix, with no hole.
use mathlib.Core.List.{append_assoc, append_cancel_left}
use chimely.Prelude.{
  All-left, String, true, false, Option, none, some, List, ◌++◌, map, ◌≡◌, refl, sym, ap, ◌∙◌,
  subst, get_last?, All, inl, inr, contains, Distinct,
}
use chimely.Types.{InboxItem, InboxSnapshot, WireInboxPage}
use chimely.Client.Merge.{
  to_item, ids, tail_after, overlaps, is_empty, merge_first_page, merge_cases,
}
use chimely.Client.Merge.Ids.{merge_bounded_cases}
use chimely.Client.Merge.Order.{Ordered}
use chimely.Client.Merge.Parts.{
  Begins, Begins-total, All-right, ids_before, ids_behind, behind_apart, behind_older,
  tail_after-append, tail_after_inside, tail_after_behind, overlaps_apart,
}

-- The page ends before the loaded items begin: it shares none with them.
no_overlap :
    (page m fresh loaded rest server : List InboxItem)
    → page ++ m ≡ fresh
    → (fresh ++ loaded) ++ rest ≡ server
    → Distinct (ids server)
    → overlaps page loaded ≡ false
no_overlap page m fresh loaded rest server h e d = overlaps_apart page loaded (
    All-left _ loaded rest (
      All-right _ m (loaded ++ rest)
        (behind_apart page (m ++ (loaded ++ rest)) (subst (λ z. Distinct (ids z)) (sym whole) d))))
  where
    whole : page ++ (m ++ (loaded ++ rest)) ≡ server
    whole =
        sym (append_assoc page m (loaded ++ rest))
        ∙ ap (λ z. z ++ (loaded ++ rest)) h
        ∙ sym (append_assoc fresh loaded rest)
        ∙ e

-- The page covers the fresh items and some loaded ones: the tail is just the loaded items behind it.
tail_after_window :
    (page m l fresh loaded rest server : List InboxItem) (b : InboxItem)
    → fresh ++ l ≡ page
    → page ++ m ≡ fresh ++ loaded
    → (fresh ++ loaded) ++ rest ≡ server
    → get_last? page ≡ some b
    → Ordered server
    → Distinct (ids server)
    → tail_after page b loaded ≡ m
tail_after_window page m l fresh loaded rest server b h k e last o d =
    subst (λ z. tail_after page b z ≡ m) parts
      (tail_after-append page b l m
        ∙ ap (λ z. z ++ tail_after page b m)
            (tail_after_inside page b l
              (subst (λ z. All (λ y. contains (ids z) y.id ≡ true) l) h (ids_behind fresh l)))
        ∙ tail_after_behind page b m
            (All-left _ m rest
              (behind_apart page (m ++ rest) (subst (λ z. Distinct (ids z)) (sym whole) d)))
            (All-left _ m rest
              (behind_older page (m ++ rest) b last (subst Ordered (sym whole) o))))
  where
    parts : l ++ m ≡ loaded
    parts =
        append_cancel_left fresh (l ++ m) loaded
          (sym (append_assoc fresh l m) ∙ ap (λ z. z ++ m) h ∙ k)

    whole : page ++ (m ++ rest) ≡ server
    whole = sym (append_assoc page m rest) ∙ ap (λ z. z ++ rest) k ∙ e

kept_Begins :
    (server fresh loaded rest page after : List InboxItem) (b : InboxItem)
    → page ++ after ≡ server
    → (fresh ++ loaded) ++ rest ≡ server
    → get_last? page ≡ some b
    → Ordered server
    → Distinct (ids server)
    → is_empty (tail_after page b loaded) ≡ false
    → overlaps page loaded ≡ true
    → Begins (page ++ tail_after page b loaded) server
kept_Begins server fresh loaded rest page after b p e last o d some_tail meet =
    elim (Begins-total page (fresh ++ loaded) after rest (p ∙ sym e)) [
      | inr (m, h) ↦
          let inside =
            subst (λ z. All (λ y. contains (ids z) y.id ≡ true) loaded) h
              (ids_before (fresh ++ loaded) m loaded (ids_behind fresh loaded)) in
          let empty = tail_after_inside page b loaded inside in cc
      | inl (m, h) ↦ elim (Begins-total page fresh m loaded h) [
        | inl (m', h') ↦ let apart = no_overlap page m' fresh loaded rest server h' e d in cc
        | inr (l, h') ↦ (
          rest,
          rw (tail_after_window page m l fresh loaded rest server b h' h e last o d)
              (ap (λ z. z ++ rest) h ∙ e),
        )
      ]
    ]

merge_cases-Begins :
    (existing : InboxSnapshot) (cursor : Option String) (page server fresh : List InboxItem)
    (next : Option String) (last : Option InboxItem)
    → get_last? page ≡ last
    → Begins page server
    → Begins (fresh ++ existing.items) server
    → Ordered server
    → Distinct (ids server)
    → Begins (merge_cases existing cursor page next last).items server
merge_cases-Begins existing cursor page server fresh none last l p e o d = p
merge_cases-Begins existing cursor page server fresh (some next) none l p e o d = p
merge_cases-Begins existing cursor page server fresh (some next) (some b) l p e o d =
    merge_bounded_cases (λ m. Begins m.items server) existing cursor page next b p
      λ t meet. kept_Begins server fresh existing.items e.0 page p.0 b p.1 e.1 l o d t meet

-- Where the server's list is in order with distinct ids, the page is a beginning of it, and it has
-- the loaded items behind the fresh ones, the merged list is a beginning of the server's list.
pub merge_first_page-Begins :
    (existing : InboxSnapshot) (cursor : Option String) (page : WireInboxPage)
    (server fresh : List InboxItem)
    → Ordered server
    → Distinct (ids server)
    → Begins (map to_item page.items) server
    → Begins (fresh ++ existing.items) server
    → Begins (merge_first_page existing cursor page).items server
unfolding merge_first_page
merge_first_page-Begins existing cursor page server fresh o d p e =
    merge_cases-Begins existing cursor (map to_item page.items) server fresh page.next_cursor _ refl
      p e o d
