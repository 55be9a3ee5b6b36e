-- ===== src/ControlPlane/Repositories/Pages.antt =====
-- The pages of `InMemoryTenantRepository.list`.
use uwo_shared_platform.Prelude.{
  ℕ, suc, ◌+◌, String, Bool, false, not, Option, none, some, List, [], ◌∷◌, take, drop, length,
  last?, ltb, if◌then◌else◌,
}
use uwo_shared_platform.Prelude.Keys.{string_eq, ◌==◌}
use uwo_shared_platform.Prelude.Dict
use uwo_shared_platform.Prelude.Dict.{Dict, keys}
use uwo_shared_platform.Prelude.Sorting.{sorted}
use uwo_shared_platform.Errors.{Code, Result, ok, conflict, raise_if, ◌>>=◌, ◌>>◌}
use uwo_shared_platform.Contracts.Domain.{Tenant}
use uwo_shared_platform.ControlPlane.World.{Page}
use uwo_shared_platform.ControlPlane.Repositories.Items.{or_key_error}

-- `ids.index(cursor) + 1`, for a cursor that is there
abbrev pub index_after : List String → String → ℕ
index_after [] cursor = 0
index_after (id ∷ ids) cursor = if id == cursor then 1 else suc (index_after ids cursor)

abbrev pub start_of : List String → Option String → ℕ
start_of ids none = 0
start_of ids (some cursor) = index_after ids cursor

abbrev pub is_unknown : Dict String Tenant → Option String → Bool
is_unknown items none = false
is_unknown items (some cursor) = not (Dict.contains items cursor)

-- `tuple(self._items[item] for item in ids)`
unfoldable pub items_of : Dict String Tenant → List String → Result (List Tenant)
items_of items [] = ok []
items_of items (id ∷ ids) = do
  t ← or_key_error (Dict.get items id)
  ts ← items_of items ids
  ok (t ∷ ts)

-- the page that starts at a position of the sorted identifiers
unfoldable pub page_at : Dict String Tenant → List String → ℕ → ℕ → Result Page
page_at items ids start limit = do
  let selected = take limit (drop start ids)
  ts ← items_of items selected
  ok (record {
    items = ts;
    next_cursor = if ltb (start + limit) (length ids) then last? selected else none;
  })

-- `list`, for a limit that the service has checked
unfoldable pub list_page : Dict String Tenant → ℕ → Option String → Result Page
unfolding page_at
list_page items limit cursor = do
  raise_if (is_unknown items cursor) (conflict Code.invalid_cursor)
  page_at items (sorted (keys items)) (start_of (sorted (keys items)) cursor) limit
