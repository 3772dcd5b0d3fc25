-- ===== src/Admin/Transactions.antt =====
-- services/admin-user.services.ts: `getUserTransactions`, with what schema/ledger.schema.ts and
-- schema/wallet.schema.ts ask of the entries and wallets that repositories/ledger.repository.ts loads.
use bukia_hft.Base.{
  ◌≡◌, ◌≢◌, refl, ◌⊎◌, inl, inr, ℕ, ◌-◌, ◌*◌, String, Bool, true, false, ◌&&◌, ◌||◌, Option, List,
  [], ◌∷◌, length, take, drop, str_eq, if◌then◌else◌,
}
use bukia_hft.Db.{Db}
use bukia_hft.Tx.{Result, ok, err, service}
use bukia_hft.Repositories.Ledger.Statistics.{
  Joined, joined_for_user, EntryPage, get_entries_for_user,
}
use bukia_hft.Analytics.{and_then, convert_all}

-- `PaginationQueryType`
pub record PaginationQuery : Type 0 where
  pub order : Option String
  pub page : ℕ
  pub page_size : ℕ
  pub search : Option String
  pub sort : Option String

-- The properties of a wallet of the database.
abbrev pub wallet_properties : List String
wallet_properties =
    "createdAt" ∷ "id" ∷ "updatedAt" ∷ "currency" ∷ "isDefault" ∷ "metadata" ∷ "userId" ∷ "version"
    ∷ []

-- `WalletResponseSchema`: the properties that have to be there.
abbrev pub wallet_response_properties : List String
wallet_response_properties =
    "balance" ∷ "createdAt" ∷ "currency" ∷ "id" ∷ "isDefault" ∷ "updatedAt" ∷ "userId" ∷ []

abbrev pub has_property : List String → String → Bool
has_property [] name = false
has_property (n ∷ ns) name = str_eq n name || has_property ns name

abbrev pub has_properties : List String → List String → Bool
has_properties there [] = true
has_properties there (n ∷ ns) = has_property there n && has_properties there ns

-- `LedgerEntrySchema`: the columns of an entry are as it asks, so that its wallet decides.
abbrev pub parse_entry : Joined → Result Joined
parse_entry j =
    if has_properties wallet_properties wallet_response_properties
    then ok j
    else err (service "zod")

-- `PaginatedLedgerResponseSchema`
unfoldable pub parse_page : EntryPage → Result EntryPage
unfolding convert_all
parse_page page =
    and_then (convert_all parse_entry page.items) (λ items. ok (record page { items = items }))

-- `getUserTransactions`
unfoldable pub get_user_transactions :
    (by_created : Option String → List Joined → Result (List Joined))
    → ℕ
    → PaginationQuery
    → Db
    → Result EntryPage
unfolding get_entries_for_user parse_page
get_user_transactions by_created user_id query db =
    and_then (get_entries_for_user by_created user_id query.page query.page_size query.sort db)
      parse_page

List-cases : {A : Type 0} (xs : List A) → (xs ≡ []) ⊎ ((x : A) × (ys : List A) × (xs ≡ x ∷ ys))
List-cases [] = inl refl
List-cases (x ∷ xs) = inr (x, xs, refl)

-- The answer by the entries of the page.
parse_page-empty : (page : EntryPage) → page.items ≡ [] → parse_page page ≡ ok page
unfolding parse_page convert_all
parse_page-empty page is = rw is refl

parse_page-full :
    (page : EntryPage) (j : Joined) (js : List Joined)
    → page.items ≡ j ∷ js
    → parse_page page ≡ err (service "zod")
unfolding parse_page convert_all
parse_page-full page j js is = rw is refl

-- Let the database take the order that is asked for. If the page has no entries, `getUserTransactions`
-- answers with it and with the number of the user's entries; if it has some, it throws, since the schema of a
-- wallet asks for a balance, which no wallet of the database has.
pub only_empty_pages_parse :
    (by_created : Option String → List Joined → Result (List Joined)) (user_id : ℕ)
    (query : PaginationQuery) (db : Db) (sorted : List Joined)
    → by_created query.sort (joined_for_user user_id db) ≡ ok sorted
    → let shown = take query.page_size (drop ((query.page - 1) * query.page_size) sorted) in
      let page : EntryPage = record {
        items = shown;
        page = query.page;
        page_size = query.page_size;
        total = length (joined_for_user user_id db);
      } in
      let answer = get_user_transactions by_created user_id query db in
      ((shown ≡ []) × (answer ≡ ok page)) ⊎ ((shown ≢ []) × (answer ≡ err (service "zod")))
unfolding get_user_transactions get_entries_for_user
only_empty_pages_parse by_created user_id query db sorted there =
    let shown = take query.page_size (drop ((query.page - 1) * query.page_size) sorted) in
    let page : EntryPage = record {
      items = shown;
      page = query.page;
      page_size = query.page_size;
      total = length (joined_for_user user_id db);
    } in
    elim (List-cases shown) [
      | inl none_shown ↦ inl (
        none_shown,
        rw (get_user_transactions, get_entries_for_user, there) (parse_page-empty page none_shown),
      )
      | inr (j, js, some_shown) ↦ inr (
        (λ e. cc (e, some_shown)),
        rw (get_user_transactions, get_entries_for_user, there)
            (parse_page-full page j js some_shown),
      )
    ]
