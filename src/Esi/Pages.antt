-- ===== src/Esi/Pages.antt =====
-- The pages of `_get_all_pages` of services/esi.py.
use eve_build.Prelude.{
  ℕ, zero, suc, ◌-◌, ◌≡◌, refl, sym, ap, ◌∙◌, Option, List, [], ◌∷◌, ◌++◌, get_or, arith,
}
use eve_build.Prelude.Exc.{ok, >>=-eq-ok}
use eve_build.Esi.{Response, timed_get, more_pages, get_all_pages}

module _ {Item : Type 0} (answer : ℕ → Option (Response Item)) where
  -- The pages from one on, in order, are all answered, and the list is their items.
  pub data ArePages : ℕ → ℕ → List Item → Type 0 where
    done : (page : ℕ) → ArePages page 0 []
    next :
        (page count : ℕ) (response : Response Item) (rest : List Item)
        → timed_get (answer page) ≡ ok response
        → ArePages (suc page) count rest
        → ArePages page (suc count) (response.items ++ rest)

  append_assoc : (a b c : List Item) → (a ++ b) ++ c ≡ a ++ (b ++ c)
  append_assoc [] b c = refl
  append_assoc (x ∷ a) b c = ap (λ l. x ∷ l) (append_assoc a b c)

  append_nil : (a : List Item) → a ++ [] ≡ a
  append_nil [] = refl
  append_nil (x ∷ a) = ap (λ l. x ∷ l) (append_nil a)

  more_pages-ArePages :
      (page count : ℕ) (results all : List Item)
      → more_pages answer page count results ≡ ok all
      → (rest : List Item) × (all ≡ results ++ rest) × ArePages page count rest
  unfolding more_pages
  more_pages-ArePages page zero results all h = (
    [],
    (let same : results ≡ all = ground (arith, h) in sym same ∙ sym (append_nil results)),
    done page,
  )
  more_pages-ArePages page (suc count) results all h =
      let (response, got, later) = >>=-eq-ok (timed_get (answer page)) _ h in
      let (rest, same, pages) =
        more_pages-ArePages (suc page) count (results ++ response.items) all later in
      (
        response.items ++ rest,
        same ∙ append_assoc results response.items rest,
        next page count response rest got pages,
      )

  -- If the call returns, every page up to the number in the header of the first was answered, and the
  -- result is their items in order.
  pub get_all_pages-ArePages :
      (all : List Item)
      → get_all_pages answer ≡ ok all
      → (first : Response Item) × (timed_get (answer 1) ≡ ok first)
        × ArePages 1 (suc (get_or first.x_pages 1 - 1)) all
  unfolding get_all_pages
  get_all_pages-ArePages all h =
      let (first, got, later) = >>=-eq-ok (timed_get (answer 1)) _ h in
      let (rest, same, pages) =
        more_pages-ArePages 2 (get_or first.x_pages 1 - 1) first.items all later in
      (first, got, rw same (next 1 (get_or first.x_pages 1 - 1) first rest got pages))
