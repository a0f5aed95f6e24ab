-- ===== src/Map/KindNames.antt =====
-- Which kinds of pins a query asks for: `parseKinds` of src/modules/map/map.service.ts.
use sidequest_demo_be.Common.{
  ◌≡◌, refl, Bool, true, ◌||◌, Option, some, List, [], ◌∷◌, arith, any, Option-cases, inl, inr,
}
use sidequest_demo_be.Common.Text.{Text, codes, trim, text_eq}
use sidequest_demo_be.Links.{TextMethods}
use sidequest_demo_be.Quests.Dto.{nonempty_text}
use sidequest_demo_be.Map.{Kinds, split_commas, collect_kinds, or_all, parse_kinds}

module _ (methods : TextMethods) where
  -- One of the pieces is the word, up to white space around it and case.
  abbrev pub names : Text → List Text → Bool
  names word = any (λ piece. text_eq (methods.to_upper_case (trim piece)) word)

  collect_kinds-names :
      (pieces : List Text)
      → ((collect_kinds methods pieces).quests ≡ names (codes "QUEST") pieces)
        × ((collect_kinds methods pieces).businesses ≡ names (codes "BUSINESS") pieces)
  unfolding collect_kinds
  collect_kinds-names [] = (refl, refl)
  collect_kinds-names (piece ∷ pieces) =
      let (q, b) = collect_kinds-names pieces in (rw q refl, rw b refl)

  or_all_some :
      (out : Kinds) → ((or_all methods out).quests || (or_all methods out).businesses) ≡ true
  or_all_some out = ground arith

  or_all_kept :
      (out : Kinds) {quests businesses : Bool}
      → out.quests ≡ quests
      → out.businesses ≡ businesses
      → (quests || businesses) ≡ true
      → ((or_all methods out).quests ≡ quests) × ((or_all methods out).businesses ≡ businesses)
  or_all_kept out q b h = (ground arith, ground arith)

  -- A query always asks for some kind of pin: where its text names quests or businesses, in any case
  -- and with white space around, for those that it names, and else for both.
  pub parse_kinds_lem :
      (raw : Option Text)
      → let kinds = parse_kinds methods raw in
        ((kinds.quests || kinds.businesses) ≡ true)
        × ((text : Text)
            → nonempty_text raw ≡ some text
            → (names (codes "QUEST") (split_commas text)
                || names (codes "BUSINESS") (split_commas text))
              ≡ true
            → (kinds.quests ≡ names (codes "QUEST") (split_commas text))
              × (kinds.businesses ≡ names (codes "BUSINESS") (split_commas text)))
  unfolding parse_kinds
  parse_kinds_lem raw = elim (Option-cases (nonempty_text raw)) [
    | inl e ↦ rw e (refl, λ text h k. absurd (ground arith))
    | inr (given, e) ↦ rw e (
      or_all_some (collect_kinds methods (split_commas given)),
      λ text h k.
          let (q, b) = collect_kinds-names (split_commas text) in
          let same : given ≡ text = ground arith in
          rw same (or_all_kept (collect_kinds methods (split_commas text)) q b k),
    )
  ]
