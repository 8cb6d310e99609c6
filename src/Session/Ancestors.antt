-- ===== src/Session/Ancestors.antt =====
-- session/resume.py: find_ancestor_chain. The loop's fuel is one more than the number of sessions in
-- the directory.
use mathlib.Core.List.{reverse, append-nil, append_assoc}
use module_agents_part.Prelude.{
  ℕ, zero, suc, ◌+◌, ◌≤◌, ◌<◌, ◌≡◌, ◌⊎◌, refl, sym, ap, ◌∙◌, subst, String, true, false, not,
  Option, none, some, List, [], ◌∷◌, ◌++◌, length, bit, arith, eq_iff, if◌then◌else◌, if_ind,
  option_ind, inl, inr,
}
use module_agents_part.Prelude.Dict.{get}
use module_agents_part.Session.State.{
  Iso, Result, ok, raise, Failure, key_error, type_error, value_error, ill_typed, elem,
}
use module_agents_part.Session.Store.{
  Root, Entry, Document, readable, corrupt, undecodable, not_object, Session, Loaded, loaded,
  not_found, decode_error, bad_document, as_parent, load_session, read_entry, read_document,
  parent_session,
}

-- How the loop ends: with the list, an exception of parent_session, or without fuel.
pub data Walk : Type 0 where
  chain : List String → Walk
  stopped : Failure → Walk
  out_of_fuel : Walk

module _ (iso : Iso) (root : Root) where
  -- the loop: `current` is what parent_session gave, `seen` the set of ids, `ids` the chain so far
  unfoldable pub walk : ℕ → List String → List String → Result (Option Session) → Walk
  unfolding parent_session
  walk zero seen ids current = out_of_fuel
  walk (suc n) seen ids (raise e) = stopped e
  walk (suc n) seen ids (ok none) = chain (reverse ids)
  walk (suc n) seen ids (ok (some s)) =
      let rest =
        walk n (s.session_id ∷ seen) (ids ++ s.session_id ∷ []) (parent_session iso root s) in
      if elem s.session_id seen then chain (reverse ids) else rest

  unfoldable pub find_ancestor_chain : Session → Walk
  unfolding walk
  find_ancestor_chain s =
      walk (suc (length root)) (s.session_id ∷ []) [] (parent_session iso root s)

-- how many entries have names that are not seen
unvisited : List String → Root → ℕ
unvisited seen [] = 0
unvisited seen ((name, e) ∷ root) = bit (not (elem name seen)) + unvisited seen root

unvisited-le-length : (seen : List String) (root : Root) → unvisited seen root ≤ length root
unfolding unvisited
unvisited-le-length seen [] = omega arith
unvisited-le-length seen ((name, e) ∷ root) = ground (arith, unvisited-le-length seen root)

unvisited-cons-le :
    (id : String) (seen : List String) (root : Root)
    → unvisited (id ∷ seen) root ≤ unvisited seen root
unfolding unvisited
unvisited-cons-le id seen [] = omega arith
unvisited-cons-le id seen ((name, e) ∷ root) = ground (arith, unvisited-cons-le id seen root)

-- seeing one more entry
unvisited-cons-lt :
    (id : String) (seen : List String) (root : Root) (e : Entry)
    → get id root ≡ some e
    → elem id seen ≡ false
    → unvisited (id ∷ seen) root < unvisited seen root
unfolding unvisited get
unvisited-cons-lt id seen [] e found new = cc
unvisited-cons-lt id seen ((name, d) ∷ root) e found new =
    ground (arith, eq_iff name id, unvisited-cons-lt id seen root e, unvisited-cons-le id seen root)

-- An ancestor line, nearest first: each id is that of the session that the one before it resumes from,
-- and was not seen before; the line ends where there is no parent to be read, or at one that was seen.
abbrev pub Line : Iso → Root → List String → Result (Option Session) → List String → Type 0
Line iso root seen current [] =
    (current ≡ ok none)
    ⊎ ((s : Session) × (current ≡ ok (some s)) × (elem s.session_id seen ≡ true))
Line iso root seen current (id ∷ ids) =
    (s : Session) × (current ≡ ok (some s))
    × (s.session_id ≡ id)
    × (elem id seen ≡ false)
    × Line iso root (id ∷ seen) (parent_session iso root s) ids

-- The result is the line from here on, behind the ids so far, oldest first.
abbrev pub IsLine : Iso → Root → List String → List String → Result (Option Session) → Walk → Type 0
IsLine iso root seen ids current (chain found) =
    (line : List String) × (found ≡ reverse (ids ++ line)) × Line iso root seen current line
IsLine iso root seen ids current (stopped e) = Unit
IsLine iso root seen ids current out_of_fuel = ⊥

module _ (iso : Iso) (root : Root) where
  read_document-id :
      (id : String) (doc : Document) (s : Session)
      → read_document iso id doc ≡ loaded s
      → s.session_id ≡ id
  unfolding read_document
  read_document-id id corrupt s h = cc
  read_document-id id undecodable s h = cc
  read_document-id id not_object s h = cc
  read_document-id id (readable d) s h = ground arith

  read_entry-id :
      (id : String) (doc : Option Document) (s : Session)
      → read_entry iso id doc ≡ loaded s
      → s.session_id ≡ id
  read_entry-id id none s h = cc
  read_entry-id id (some doc) s h = read_document-id id doc s h

  -- a session that was loaded is an entry of its id
  pub load_session-found :
      (id : String) (s : Session)
      → load_session iso id root ≡ loaded s
      → (e : Entry) × (s.session_id ≡ id) × (get id root ≡ some e)
  unfolding load_session
  load_session-found id s =
      option_ind
        (λ (l : Loaded). l ≡ loaded s → (e : Entry) × (s.session_id ≡ id) × (get id root ≡ some e))
        (get id root) (λ _ h. cc) (λ e found h. (e, read_entry-id id e.session_json s h, found))

  as_parent-loaded : (l : Loaded) (p : Session) → as_parent iso l ≡ ok (some p) → l ≡ loaded p
  as_parent-loaded (loaded s) p h = cc
  as_parent-loaded (not_found id) p h = cc
  as_parent-loaded decode_error p h = cc
  as_parent-loaded (bad_document key_error) p h = cc
  as_parent-loaded (bad_document type_error) p h = cc
  as_parent-loaded (bad_document value_error) p h = cc
  as_parent-loaded (bad_document ill_typed) p h = cc

  pub parent_session-found :
      (s p : Session)
      → parent_session iso root s ≡ ok (some p)
      → (e : Entry) × (get p.session_id root ≡ some e)
  unfolding parent_session
  parent_session-found s p =
      option_ind
        (λ (r : Result (Option Session)).
          r ≡ ok (some p) → (e : Entry) × (get p.session_id root ≡ some e))
        s.state.resumed_from (λ _ h. cc)
        (λ parent _ h.
          let (e, same, found) =
            load_session-found parent p (as_parent-loaded (load_session iso parent root) p h) in
          (e, subst (λ i. get i root ≡ some e) (sym same) found))

  -- a current session comes from the directory
  abbrev IsFound : Result (Option Session) → Type 0
  IsFound current =
      (s : Session) → current ≡ ok (some s) → (e : Entry) × (get s.session_id root ≡ some e)

  walk-IsLine :
      (n : ℕ) (seen ids : List String) (current : Result (Option Session))
      → IsFound current
      → unvisited seen root < n
      → IsLine iso root seen ids current (walk iso root n seen ids current)
  unfolding walk
  walk-IsLine zero seen ids current found h = elim h [ ]
  walk-IsLine (suc n) seen ids (raise e) found h = tt
  walk-IsLine (suc n) seen ids (ok none) found h = ([], ap reverse (sym (append-nil ids)), inl refl)
  walk-IsLine (suc n) seen ids (ok (some s)) found h =
      if_ind (IsLine iso root seen ids (ok (some s))) (elem s.session_id seen)
        (λ old. ([], ap reverse (sym (append-nil ids)), inr (s, refl, old)))
        (λ new.
          let (e, there) = found s refl in
          extend s new
            (walk iso root n (s.session_id ∷ seen) (ids ++ s.session_id ∷ [])
              (parent_session iso root s))
            (walk-IsLine n (s.session_id ∷ seen) (ids ++ s.session_id ∷ [])
              (parent_session iso root s) (parent_session-found s)
              (omega (arith, unvisited-cons-lt s.session_id seen root e there new, h))))
    where
      extend :
          (s : Session)
          → elem s.session_id seen ≡ false
          → (w : Walk)
          → IsLine iso root
              (s.session_id ∷ seen)
              (ids ++ s.session_id ∷ [])
              (parent_session iso root s)
              w
          → IsLine iso root seen ids (ok (some s)) w
      extend s new (chain found) (line, same, l) = (
        s.session_id ∷ line,
        same ∙ ap reverse (append_assoc ids (s.session_id ∷ []) line),
        (s, refl, refl, new, l),
      )
      extend s new (stopped e) l = tt
      extend s new out_of_fuel l = l

  -- The walk always ends. Unless reading a document raises, it gives, oldest first, the line of ids that
  -- starts at the session's parent and follows resumed_from: every id is loaded from the directory, none
  -- stands twice, none is the session's own, and the line stops only where there is no parent to be read
  -- or at a session that is already on it.
  pub find_ancestor_chain-IsLine :
      (s : Session)
      → IsLine iso root
          (s.session_id ∷ [])
          []
          (parent_session iso root s)
          (find_ancestor_chain iso root s)
  unfolding find_ancestor_chain
  find_ancestor_chain-IsLine s =
      walk-IsLine (suc (length root)) (s.session_id ∷ []) [] (parent_session iso root s)
        (parent_session-found s) (omega (arith, unvisited-le-length (s.session_id ∷ []) root))
