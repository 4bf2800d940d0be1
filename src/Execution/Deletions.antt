-- ===== src/Execution/Deletions.antt =====
-- The accounts that a computation deletes, over it and its children.
use veda_bvm.Common.{
  ◌≡◌, refl, sym, ap, ◌∙◌, true, false, Option, none, some, List, [], ◌∷◌, ◌++◌, arith,
  if◌then◌else◌, Bool-cases, inl, inr, subst, append_assoc,
}
use veda_bvm.Execution.Entries.{
  beneficiary_of, put_account, put_all, get_accounts_for_deletion, accounts_of,
}
use veda_bvm.Execution.Refunds.{survivors, survivors_of}
use veda_bvm.Execution.{Frame, Tree, tree, Children, childless, append, is_error}
use veda_bvm.Message.{Address, same_address}

-- The last of the entries for an account, or else what is given.
unfoldable pub last_of : Address → List (Address × Address) → Option Address → Option Address
last_of account [] o = o
last_of account ((a, b) ∷ entries) o =
    last_of account entries (if same_address account a then some b else o)

abbrev pub all_deletions : List Frame → List (Address × Address)
all_deletions [] = []
all_deletions (f ∷ fs) = f.accounts_to_delete ++ all_deletions fs

all_deletions-append :
    (xs ys : List Frame) → all_deletions (xs ++ ys) ≡ all_deletions xs ++ all_deletions ys
all_deletions-append [] ys = refl
all_deletions-append (f ∷ xs) ys =
    ap (λ l. f.accounts_to_delete ++ l) (all_deletions-append xs ys)
    ∙ sym (append_assoc f.accounts_to_delete (all_deletions xs) (all_deletions ys))

same_address-eq : (a b : Address) → same_address a b ≡ true → a ≡ b
unfolding same_address
same_address-eq none none h = refl
same_address-eq none (some b) h = cc
same_address-eq (some a) none h = cc
same_address-eq (some a) (some b) h = let e : a ≡ b = ground arith in ap some e

same_address_self : (a : Address) → same_address a a ≡ true
unfolding same_address
same_address_self none = refl
same_address_self (some a) = ground arith

same_address_comm : (a b : Address) → same_address a b ≡ same_address b a
unfolding same_address
same_address_comm none none = refl
same_address_comm none (some b) = refl
same_address_comm (some a) none = refl
same_address_comm (some a) (some b) = ground arith

beneficiary_of-put_account :
    (account a b : Address) (d : List (Address × Address))
    → beneficiary_of account (put_account a b d)
      ≡ (if same_address account a then some b else beneficiary_of account d)
unfolding beneficiary_of put_account
beneficiary_of-put_account account a b [] = refl
beneficiary_of-put_account account a b ((x, y) ∷ d) =
    let rest = beneficiary_of-put_account account a b d in
    elim (Bool-cases (same_address a x)) [
      | inl same ↦
          let e : a ≡ x = same_address-eq a x same in
          let at_x : same_address account a ≡ same_address account x =
            ap (same_address account) e in
          elim (Bool-cases (same_address account x)) [
            | inl hit ↦ rw (same, at_x, hit) refl
            | inr miss ↦ rw (same, at_x, miss) refl
          ]
      | inr other ↦ elim (Bool-cases (same_address account a)) [
        | inl hit ↦
            let e : account ≡ a = same_address-eq account a hit in
            let not_x : same_address account x ≡ false = ap (λ c. same_address c x) e ∙ other in
            let found : beneficiary_of account (put_account a b d) ≡ some b = rw (rest, hit) refl in
            rw (other, hit, not_x) found
        | inr miss ↦
            let passed : beneficiary_of account (put_account a b d) ≡ beneficiary_of account d =
              rw (rest, miss) refl in
            rw (other, miss, passed) refl
      ]
    ]

-- A key that is written takes the value; one that is not keeps its own.
beneficiary_of-put_all :
    (account : Address) (d entries : List (Address × Address))
    → beneficiary_of account (put_all d entries)
      ≡ last_of account entries (beneficiary_of account d)
unfolding put_all last_of
beneficiary_of-put_all account d [] = refl
beneficiary_of-put_all account d ((a, b) ∷ entries) =
    beneficiary_of-put_all account (put_account a b d) entries
    ∙ ap (last_of account entries) (beneficiary_of-put_account account a b d)

last_of-append :
    (account : Address) (xs ys : List (Address × Address)) (o : Option Address)
    → last_of account (xs ++ ys) o ≡ last_of account ys (last_of account xs o)
unfolding last_of
last_of-append account [] ys o = refl
last_of-append account ((a, b) ∷ xs) ys o =
    last_of-append account xs ys (if same_address account a then some b else o)

-- Each key stands once.
abbrev pub Once : List (Address × Address) → Type 0
Once [] = Unit
Once ((a, b) ∷ d) = (beneficiary_of a d ≡ none) × Once d

unfoldable or_else : Option Address → Option Address → Option Address
or_else none o = o
or_else (some b) o = some b

last_of-none :
    (account : Address) (d : List (Address × Address)) (o : Option Address)
    → beneficiary_of account d ≡ none
    → last_of account d o ≡ o
unfolding beneficiary_of last_of
last_of-none account [] o h = refl
last_of-none account ((a, b) ∷ d) o h = elim (Bool-cases (same_address account a)) [
  | inl hit ↦
      let h' : some b ≡ none =
        subst (λ t. (if t then some b else beneficiary_of account d) ≡ none) hit h in
      cc
  | inr miss ↦
      let h' : beneficiary_of account d ≡ none =
        subst (λ t. (if t then some b else beneficiary_of account d) ≡ none) miss h in
      rw miss (last_of-none account d o h')
]

last_of-Once :
    (account : Address) (d : List (Address × Address)) (o : Option Address)
    → Once d
    → last_of account d o ≡ or_else (beneficiary_of account d) o
unfolding beneficiary_of last_of or_else
last_of-Once account [] o u = refl
last_of-Once account ((a, b) ∷ d) o (new, u) =
    let rest = last_of-Once account d o u in
    elim (Bool-cases (same_address account a)) [
      | inl hit ↦
          let e : account ≡ a = same_address-eq account a hit in
          let none_left : beneficiary_of account d ≡ none = ap (λ c. beneficiary_of c d) e ∙ new in
          rw hit (last_of-none account d (some b) none_left)
      | inr miss ↦ rw miss rest
    ]

put_account-Once :
    (a b : Address) (d : List (Address × Address)) → Once d → Once (put_account a b d)
unfolding beneficiary_of put_account
put_account-Once a b [] u = (refl, tt)
put_account-Once a b ((x, y) ∷ d) (new, u) =
    let rest = put_account-Once a b d u in
    elim (Bool-cases (same_address a x)) [
      | inl same ↦ rw same (new, u)
      | inr other ↦
          let back : same_address x a ≡ false = same_address_comm x a ∙ other in
          let still : beneficiary_of x (put_account a b d) ≡ none =
            beneficiary_of-put_account x a b d ∙ (rw back new) in
          rw other (still, rest)
    ]

put_all-Once : (d entries : List (Address × Address)) → Once d → Once (put_all d entries)
unfolding put_all
put_all-Once d [] u = u
put_all-Once d ((a, b) ∷ entries) u =
    put_all-Once (put_account a b d) entries (put_account-Once a b d u)

last_of-or_else :
    (account : Address) (es : List (Address × Address)) (d o : Option Address)
    → or_else (last_of account es d) o ≡ last_of account es (or_else d o)
unfolding last_of or_else
last_of-or_else account [] d o = refl
last_of-or_else account ((a, b) ∷ es) d o = elim (Bool-cases (same_address account a)) [
  | inl hit ↦ rw hit (last_of-or_else account es (some b) o)
  | inr miss ↦ rw miss (last_of-or_else account es d o)
]

last_of-put_all :
    (account : Address) (es : List (Address × Address)) (o : Option Address)
    → last_of account (put_all [] es) o ≡ last_of account es o
unfolding beneficiary_of or_else
last_of-put_all account es o =
    last_of-Once account (put_all [] es) o (put_all-Once [] es tt)
    ∙ ap (λ d. or_else d o) (beneficiary_of-put_all account [] es)
    ∙ last_of-or_else account es none o

mutual
  unfolding get_accounts_for_deletion survivors last_of

  last_of-deletions :
      (account : Address) (t : Tree) (o : Option Address)
      → last_of account (get_accounts_for_deletion t) o
        ≡ last_of account (all_deletions (survivors t)) o
  last_of-deletions account (tree f cs) o =
      let own = last_of account f.accounts_to_delete o in
      let below = last_of-deletions_of account cs own in
      elim (Bool-cases (is_error f)) [
        | inl failed ↦ rw failed refl
        | inr fine ↦ rw fine (
            last_of-put_all account (f.accounts_to_delete ++ accounts_of cs) o
            ∙ last_of-append account f.accounts_to_delete (accounts_of cs) o
            ∙ below
            ∙ sym (last_of-append account f.accounts_to_delete (all_deletions (survivors_of cs)) o))
      ]

  last_of-deletions_of :
      (account : Address) (cs : Children) (o : Option Address)
      → last_of account (accounts_of cs) o ≡ last_of account (all_deletions (survivors_of cs)) o
  last_of-deletions_of account childless o = refl
  last_of-deletions_of account (append cs child) o =
      last_of-append account (accounts_of cs) (get_accounts_for_deletion child) o
      ∙ ap (last_of account (get_accounts_for_deletion child)) (last_of-deletions_of account cs o)
      ∙ last_of-deletions account child (last_of account (all_deletions (survivors_of cs)) o)
      ∙ sym (
          last_of-append account (all_deletions (survivors_of cs)) (all_deletions (survivors child))
            o)
      ∙ ap (λ es. last_of account es o)
          (sym (all_deletions-append (survivors_of cs) (survivors child)))

get_accounts_for_deletion-Once : (t : Tree) → Once (get_accounts_for_deletion t)
unfolding get_accounts_for_deletion
get_accounts_for_deletion-Once (tree f cs) = elim (Bool-cases (is_error f)) [
  | inl failed ↦ rw failed tt
  | inr fine ↦ rw fine (put_all-Once [] (f.accounts_to_delete ++ accounts_of cs) tt)
]

or_else_right : (d : Option Address) → or_else d none ≡ d
unfolding or_else
or_else_right none = refl
or_else_right (some b) = refl

-- The accounts to delete of a computation are, each once, those that a computation in its tree has
-- registered that has no error, in itself or in a computation above it; the beneficiary of an account
-- is that of the last such registration, an own one of a computation before those of its children,
-- and these in their order.
pub get_accounts_for_deletion_lem :
    (t : Tree) (account : Address)
    → (beneficiary_of account (get_accounts_for_deletion t)
        ≡ last_of account (all_deletions (survivors t)) none)
      × Once (get_accounts_for_deletion t)
get_accounts_for_deletion_lem t account =
    let once = get_accounts_for_deletion-Once t in
    (
      sym (or_else_right (beneficiary_of account (get_accounts_for_deletion t)))
          ∙ sym (last_of-Once account (get_accounts_for_deletion t) none once)
          ∙ last_of-deletions account t none,
      once,
    )
