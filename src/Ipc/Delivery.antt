-- ===== src/Ipc/Delivery.antt =====
-- What becomes of the files of an inbox.
use mathlib.Core.List.{Memᴰ}
use module_agents_part.Prelude.{
  ℕ, ◌+◌, ◌≡◌, refl, sym, ap, subst, Bool, true, false, ◌⊎◌, inl, inr, ◌||◌, Option, none, some,
  List, [], ◌∷◌, ◌++◌, map, All, count, arith, if_ind,
}
use module_agents_part.Prelude.Json.{Json}
use module_agents_part.Ipc.Consume.{
  Content, parsed, invalid_json, unreadable, undecodable, File, skipped, leave, quarantine,
  leave_noted, Reading, discard, deliver, read_one, consume,
}

module _ (now_ms max_age_ms : ℕ) where
  -- a file that is old enough, and neither the sentinel nor a temporary file
  abbrev pub IsDue : File → Type 0
  IsDue f = skipped now_ms max_age_ms f ≡ false

  abbrev pub IsDelivery : File × Json → Type 0
  IsDelivery x = x.0.content ≡ parsed x.1

  -- json.load raises what the loop does not catch, or the file cannot be read and can be neither moved
  -- nor unlinked
  abbrev pub IsStuck : File → Type 0
  IsStuck f =
      (f.content ≡ undecodable)
      ⊎ (((f.content ≡ invalid_json) ⊎ (f.content ≡ unreadable))
          × (f.movable ≡ false)
          × (f.deletable ≡ false))

  -- what a call returned: the archived files with their payloads, or the file that made it raise
  abbrev pub Returns : List File → List File → Option (List (File × Json)) → Type 0
  Returns files archived (some out) =
      (map (λ (x : File × Json). x.0) out ≡ archived) × All IsDelivery out
  Returns files archived none = (f : File) × Memᴰ f files × IsDue f × IsStuck f

  -- the account of a call
  pub record Accounts (files : List File) (r : Reading) : Type 0 where
    pub conserved :
        (p : File → Bool)
        → count p files
          ≡ count p r.1.inbox + count p r.1.archived + count p r.1.quarantined + count p r.1.deleted
    pub archived_due : All IsDue r.1.archived
    pub quarantined_due : All IsDue r.1.quarantined
    pub deleted_due : All IsDue r.1.deleted
    pub returned : Returns files r.1.archived r.0

  Returns-cons :
      (f : File) (files archived : List File) (o : Option (List (File × Json)))
      → Returns files archived o
      → Returns (f ∷ files) archived o
  Returns-cons f files archived none (g, m, due, bad) = (g, Memᴰ.tail m, due, bad)
  Returns-cons f files archived (some out) h = h

  left :
      (f : File) (files : List File) (r : Reading)
      → Accounts files r
      → Accounts (f ∷ files) (r.0, leave f r.1)
  left f files r a = record {
    conserved = λ p. omega (arith, a.conserved p);
    archived_due = a.archived_due;
    quarantined_due = a.quarantined_due;
    deleted_due = a.deleted_due;
    returned = Returns-cons f files r.1.archived r.0 a.returned;
  }

  noted :
      (f : File) (files : List File) (r : Reading)
      → Accounts files r
      → Accounts (f ∷ files) (r.0, leave_noted f r.1)
  noted f files r a = record {
    conserved = λ p. omega (arith, a.conserved p);
    archived_due = a.archived_due;
    quarantined_due = a.quarantined_due;
    deleted_due = a.deleted_due;
    returned = Returns-cons f files r.1.archived r.0 a.returned;
  }

  quarantined_one :
      (f : File) (files : List File) (r : Reading)
      → IsDue f
      → Accounts files r
      → Accounts (f ∷ files) (r.0, quarantine f r.1)
  quarantined_one f files r due a =
      if_ind (λ c. Accounts (f ∷ files) (r.0, c)) f.movable
        (λ _. record {
          conserved = λ p. omega (arith, a.conserved p);
          archived_due = a.archived_due;
          quarantined_due = (due, a.quarantined_due);
          deleted_due = a.deleted_due;
          returned = Returns-cons f files r.1.archived r.0 a.returned;
        })
        (λ _. record {
          conserved = λ p. omega (arith, a.conserved p);
          archived_due = a.archived_due;
          quarantined_due = a.quarantined_due;
          deleted_due = (due, a.deleted_due);
          returned = Returns-cons f files r.1.archived r.0 a.returned;
        })

  discarded_one :
      (f : File) (files : List File) (r : Reading)
      → IsDue f
      → (f.content ≡ invalid_json) ⊎ (f.content ≡ unreadable)
      → Accounts files r
      → Accounts (f ∷ files) (discard f files r)
  discarded_one f files r due bad a =
      if_ind (Accounts (f ∷ files)) (f.movable || f.deletable)
        (λ _. quarantined_one f files r due a)
        (λ kept. record {
          conserved = λ p. omega arith;
          archived_due = tt;
          quarantined_due = tt;
          deleted_due = tt;
          returned = (
            f,
            Memᴰ.head refl,
            due,
            inr (bad, (fixed f.movable f.deletable kept).0, (fixed f.movable f.deletable kept).1),
          );
        })
    where
      fixed : (a b : Bool) → a || b ≡ false → (a ≡ false) × (b ≡ false)
      fixed true b h = cc
      fixed false b h = (refl, h)

  delivered_one :
      (f : File) (payload : Json) (files : List File) (r : Reading)
      → IsDue f
      → f.content ≡ parsed payload
      → Accounts files r
      → Accounts (f ∷ files) (deliver f payload r)
  delivered_one f payload files (none, c) due e a = record {
    conserved = λ p. omega (arith, a.conserved p);
    archived_due = (due, a.archived_due);
    quarantined_due = a.quarantined_due;
    deleted_due = a.deleted_due;
    returned = let (g, m, g_due, bad) = a.returned in (g, Memᴰ.tail m, g_due, bad);
  }
  delivered_one f payload files (some out, c) due e a = record {
    conserved = λ p. omega (arith, a.conserved p);
    archived_due = (due, a.archived_due);
    quarantined_due = a.quarantined_due;
    deleted_due = a.deleted_due;
    returned = (ap (λ fs. f ∷ fs) a.returned.0, (e, a.returned.1));
  }

  read_one-Accounts :
      (f : File) (later : List File) (c : Content) (r : Reading)
      → IsDue f
      → f.content ≡ c
      → Accounts later r
      → Accounts (f ∷ later) (read_one f later c r)
  unfolding read_one
  read_one-Accounts f later (parsed payload) r due e a =
      if_ind (Accounts (f ∷ later)) f.movable (λ _. delivered_one f payload later r due e a)
        (λ _. noted f later r a)
  read_one-Accounts f later invalid_json r due e a = discarded_one f later r due (inl e) a
  read_one-Accounts f later unreadable r due e a = discarded_one f later r due (inr e) a
  read_one-Accounts f later undecodable r due e a = record {
    conserved = λ p. omega arith;
    archived_due = tt;
    quarantined_due = tt;
    deleted_due = tt;
    returned = (f, Memᴰ.head refl, due, inl e);
  }

  -- For an inbox that can be listed and whose entries can be examined, with directories for the archive and
  -- for errors that exist or can be made: every file of the inbox is afterwards in one place, as often as
  -- before: it stays, or is archived, quarantined or deleted; only files that are due are moved, so the close sentinel, temporary files and
  -- young files stay. If the call returns, it returns exactly the archived files, in the order of their
  -- names, each with the payload that it holds. It raises only if json.load of a due file ends in an exception
  -- that is no OSError and no JSONDecodeError, or a due file that cannot be read can be neither moved nor
  -- unlinked.
  pub consume-Accounts : (files : List File) → Accounts files (consume now_ms max_age_ms files)
  unfolding consume
  consume-Accounts [] = record {
    conserved = λ p. omega arith;
    archived_due = tt;
    quarantined_due = tt;
    deleted_due = tt;
    returned = (refl, tt);
  }
  consume-Accounts (f ∷ later) =
      let rest = consume now_ms max_age_ms later in
      if_ind (Accounts (f ∷ later)) (skipped now_ms max_age_ms f)
        (λ _. left f later rest (consume-Accounts later))
        (λ due. read_one-Accounts f later f.content rest due refl (consume-Accounts later))

  -- a call that raised, and left the file
  abbrev pub Blocked : File → Reading → Type 0
  Blocked f r = (r.0 ≡ none) × Memᴰ f r.1.inbox

  discard-Blocked :
      (f g : File) (later : List File) (r : Reading)
      → Memᴰ f later
      → Blocked f r
      → Blocked f (discard g later r)
  discard-Blocked f g later r m h =
      if_ind (Blocked f) (g.movable || g.deletable)
        (λ _. if_ind (λ c. Blocked f (r.0, c)) g.movable (λ _. h) (λ _. h))
        (λ _. (refl, Memᴰ.tail m))

  read_one-Blocked :
      (f g : File) (later : List File) (c : Content) (r : Reading)
      → Memᴰ f later
      → Blocked f r
      → Blocked f (read_one g later c r)
  unfolding read_one
  read_one-Blocked f g later (parsed payload) (none, c) m h =
      if_ind (Blocked f) g.movable (λ _. h) (λ _. (refl, Memᴰ.tail h.1))
  read_one-Blocked f g later (parsed payload) (some out, c) m h = cc h.0
  read_one-Blocked f g later invalid_json r m h = discard-Blocked f g later r m h
  read_one-Blocked f g later unreadable r m h = discard-Blocked f g later r m h
  read_one-Blocked f g later undecodable r m h = (refl, Memᴰ.tail m)

  mem_middle : (f : File) (before after : List File) → Memᴰ f (before ++ f ∷ after)
  mem_middle f [] after = Memᴰ.head refl
  mem_middle f (g ∷ before) after = Memᴰ.tail (mem_middle f before after)

  -- A due file that is not valid UTF-8 blocks its inbox: a call raises wherever the file stands, so it
  -- returns none of the messages, and the file stays, so that every later call raises too.
  pub undecodable_blocks :
      (before after : List File) (f : File)
      → IsDue f
      → f.content ≡ undecodable
      → let r = consume now_ms max_age_ms (before ++ f ∷ after) in (r.0 ≡ none) × Memᴰ f r.1.inbox
  unfolding consume
  undecodable_blocks [] after f due bad =
      if_ind (Blocked f) (skipped now_ms max_age_ms f) (λ s. cc)
        (λ _.
          subst (λ c. Blocked f (read_one f after c (consume now_ms max_age_ms after))) (sym bad)
            (unfold read_one in (refl, Memᴰ.head refl)))
  undecodable_blocks (g ∷ before) after f due bad =
      let h = undecodable_blocks before after f due bad in
      let rest = consume now_ms max_age_ms (before ++ f ∷ after) in
      if_ind (Blocked f) (skipped now_ms max_age_ms g) (λ _. (h.0, Memᴰ.tail h.1))
        (λ _.
          read_one-Blocked f g (before ++ f ∷ after) g.content rest (mem_middle f before after) h)
