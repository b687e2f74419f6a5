-- ===== src/Contracts/Listing.antt =====
-- ListContracts of handler.go, with `List` and `Count` of contract_store.go.
pub mod Pages
use hire_flow.Prelude.{
  ℕ, Bool, true, false, ◌&&◌, ◌||◌, Option, none, some, List, ◌==◌, if◌then◌else◌,
}
use hire_flow.Prelude.Int.{ℤ, pos, pos_part, leb_ℤ, ltb_ℤ}
use hire_flow.Prelude.Table.{length, filter}
use hire_flow.Prelude.Paging.{newest, page}
use hire_flow.Contracts.Types.{Uuid, Contract, Db}

-- the empty text, 0, does not filter
pub record ListFilter : Type 0 where
  pub client_id : Uuid
  pub freelancer_id : Uuid
  pub limit : ℤ
  pub offset : ℤ

-- the conditions of the WHERE clause that the store builds
abbrev pub matches : ListFilter → Contract → Bool
matches f c =
    (f.client_id == 0 || c.client_id == f.client_id)
    && (f.freelancer_id == 0 || c.freelancer_id == f.freelancer_id)

abbrev pub page_limit : ℤ → ℕ
page_limit n = if leb_ℤ n (pos 0) || ltb_ℤ (pos 100) n then 20 else pos_part n

abbrev pub created_at : Contract → ℕ
created_at c = c.created_at

-- The order in which the database comes upon the rows of one query, which `ORDER BY created_at DESC`
-- leaves to rows of the same time. Another query may have another one.
abbrev pub Scan : Type 0
Scan = List Contract → List Contract

-- an offset that is not positive is left out of the query
unfoldable pub list_rows : Bool → Scan → ListFilter → Db → Option (List Contract)
list_rows fails scan f db =
    if fails
    then none
    else some (
        page (page_limit f.limit) (pos_part f.offset)
          (newest created_at (scan (filter (matches f) db.contracts))))

unfoldable pub count_rows : Bool → ListFilter → Db → Option ℕ
count_rows fails f db = if fails then none else some (length (filter (matches f) db.contracts))

-- a number in a query: it is missing, it cannot be read, or it is read
pub data Param : Type 0 where
  missing malformed : Param
  number : ℤ → Param

-- the answers: 400 for a number that cannot be read, 500, or 200 with the items and the total
pub data Listed : Type 0 where
  invalid_limit invalid_offset internal_error : Listed
  listed : List Contract → ℕ → Listed

-- the fields `limit` and `offset` of a filter are 0 where the query has no such number
abbrev with_param : Param → Listed → (ℤ → Listed) → Listed
with_param missing bad next = next (pos 0)
with_param malformed bad next = bad
with_param (number n) bad next = next n

abbrev counted : List Contract → Option ℕ → Listed
counted items none = internal_error
counted items (some total) = listed items total

abbrev with_items : Option (List Contract) → Option ℕ → Listed
with_items none total = internal_error
with_items (some items) total = counted items total

unfoldable pub list_contracts : Bool → Bool → Scan → Uuid → Uuid → Param → Param → Db → Listed
unfolding list_rows count_rows
list_contracts list_fails count_fails scan client freelancer limit offset db =
    with_param limit invalid_limit (λ l. with_param offset invalid_offset (λ o.
      let f : ListFilter = record {
        client_id = client;
        freelancer_id = freelancer;
        limit = l;
        offset = o;
      } in
      with_items (list_rows list_fails scan f db) (count_rows count_fails f db)))
