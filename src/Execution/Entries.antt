-- ===== src/Execution/Entries.antt =====
-- veda/vm/computation.py: log entries, and accounts that are registered for deletion.
use veda_bvm.Common.{
  ℕ, ◌+◌, Bool, true, false, Option, none, some, List, [], ◌∷◌, ◌++◌, ⊤, ltb, if◌then◌else◌, map,
  not, ◌&&◌,
}
use veda_bvm.Exceptions.{ok, err, Action, value_error, validation_error}
use veda_bvm.Execution.{Frame, LogEntry, Tree, tree, Children, childless, append, is_error}
use veda_bvm.Message.{Address, same_address, storage_address}
use veda_bvm.Numeric.{uint_256_max}

-- `accounts_to_delete.get(account)`, and a write to it, which keeps the place of a key.
unfoldable pub beneficiary_of : Address → List (Address × Address) → Option Address
unfolding same_address
beneficiary_of account [] = none
beneficiary_of account ((a, b) ∷ entries) =
    if same_address account a then some b else beneficiary_of account entries

unfoldable pub put_account : Address → Address → List (Address × Address) → List (Address × Address)
unfolding same_address
put_account account beneficiary [] = (account, beneficiary) ∷ []
put_account account beneficiary ((a, b) ∷ entries) =
    if same_address account a
    then (a, beneficiary) ∷ entries
    else (a, b) ∷ put_account account beneficiary entries

-- `dict(_)`, of pairs of which the later win.
unfoldable pub put_all :
    List (Address × Address) → List (Address × Address) → List (Address × Address)
unfolding put_account
put_all d [] = d
put_all d ((a, b) ∷ entries) = put_all (put_account a b d) entries

unfoldable pub is_registered : Option Address → Bool
is_registered none = false
is_registered (some _) = true

-- `validate_canonical_address`
abbrev is_canonical : Address → Bool
is_canonical none = false
is_canonical (some _) = true

unfoldable pub register_account_for_deletion : Address → Action Frame ⊤
unfolding beneficiary_of put_account is_registered storage_address
register_account_for_deletion beneficiary f =
    let account = storage_address f.msg in
    if not (is_canonical beneficiary)
    then (err validation_error, f)
    else if is_registered (beneficiary_of account f.accounts_to_delete)
    then (err value_error, f)
    else (
      ok tt,
      record f { accounts_to_delete = put_account account beneficiary f.accounts_to_delete },
    )

unfoldable mutual
  unfolding put_all

  pub get_accounts_for_deletion : Tree → List (Address × Address)
  get_accounts_for_deletion (tree f cs) =
      let children = accounts_of cs in
      if is_error f then [] else put_all [] (f.accounts_to_delete ++ children)

  pub accounts_of : Children → List (Address × Address)
  accounts_of childless = []
  accounts_of (append cs child) = accounts_of cs ++ get_accounts_for_deletion child

unfoldable pub are_words : List ℕ → Bool
are_words [] = true
are_words (n ∷ ns) = if ltb uint_256_max n then false else are_words ns

-- `get_next_log_counter` of the transaction's context, which all its computations share, numbers the
-- entries from zero.
unfoldable pub add_log_entry : Address → List ℕ → List ℕ → Action (ℕ × Frame) ⊤
unfolding are_words
add_log_entry account topics log_data (next, f) =
    if is_canonical account && are_words topics
    then (
      ok tt,
      (
        next + 1,
        record f {
          log_entries =
              f.log_entries
              ++ (record {
                counter = next;
                account = account;
                topics = topics;
                log_data = log_data;
              })
                ∷ [];
        },
      ),
    )
    else (err validation_error, (next, f))

-- `sorted(_)`. Two entries of a transaction differ in their first component, the counter.
unfoldable pub insert_entry : LogEntry → List LogEntry → List LogEntry
insert_entry e [] = e ∷ []
insert_entry e (d ∷ ds) = if ltb d.counter e.counter then d ∷ insert_entry e ds else e ∷ d ∷ ds

unfoldable pub sort_entries : List LogEntry → List LogEntry
unfolding insert_entry
sort_entries [] = []
sort_entries (e ∷ es) = insert_entry e (sort_entries es)

unfoldable mutual
  unfolding sort_entries

  pub get_raw_log_entries : Tree → List LogEntry
  get_raw_log_entries (tree f cs) =
      let children = raw_entries_of cs in
      if is_error f then [] else sort_entries (f.log_entries ++ children)

  pub raw_entries_of : Children → List LogEntry
  raw_entries_of childless = []
  raw_entries_of (append cs child) = raw_entries_of cs ++ get_raw_log_entries child

unfoldable pub get_log_entries : Tree → List (Address × List ℕ × List ℕ)
unfolding get_raw_log_entries
get_log_entries t =
    map (λ (e : LogEntry). (e.account, e.topics, e.log_data)) (get_raw_log_entries t)
