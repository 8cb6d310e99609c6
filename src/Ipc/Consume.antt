-- ===== src/Ipc/Consume.antt =====
-- ipc/protocol.py: read_and_consume and the close sentinel. An inbox is the list of its entries in the
-- order of their names; what reading, moving or unlinking a file ends in comes with
-- the entry.
use module_agents_part.Prelude.{
  ℕ, ◌+◌, String, Bool, true, false, Option, none, some, List, [], ◌∷◌, ltb, ◌==◌, ◌||◌,
  if◌then◌else◌,
}
use module_agents_part.Prelude.Json.{Json}

-- What `json.load` of a file ends in. `undecodable` is a UnicodeDecodeError or another
-- exception that is neither an OSError nor a JSONDecodeError, as the ValueError of a number too long.
pub data Content : Type 0 where
  parsed : Json → Content
  invalid_json : Content
  unreadable : Content
  undecodable : Content

pub record File : Type 0 where
  pub name : String
  pub is_file : Bool
  pub is_tmp : Bool
  -- when it was written, in milliseconds; none if another consumer took it
  pub modified_ms : Option ℕ
  pub content : Content
  -- whether moving it away succeeds
  pub movable : Bool
  -- whether unlinking it succeeds, or finds that it is gone
  pub deletable : Bool

abbrev pub close_sentinel_name : String
close_sentinel_name = "_close"

-- is_close_sentinel
abbrev pub is_close_sentinel : String → Bool
is_close_sentinel name = name == close_sentinel_name

-- age_ms < max_age_ms, also for a file from the future, or the file is gone
abbrev pub too_young : ℕ → ℕ → Option ℕ → Bool
too_young now_ms max_age_ms none = true
too_young now_ms max_age_ms (some t) = ltb now_ms (t + max_age_ms)

-- the four tests that skip an entry
unfoldable pub skipped : ℕ → ℕ → File → Bool
skipped now_ms max_age_ms f =
    if f.is_file
    then is_close_sentinel f.name || (f.is_tmp || too_young now_ms max_age_ms f.modified_ms)
    else true

-- What a call leaves: the entries that stay, those in the archive, in quarantine and deleted, and the
-- names in the notes.
pub record Consumed : Type 0 where
  pub inbox : List File
  pub archived : List File
  pub quarantined : List File
  pub deleted : List File
  pub notes : List String

abbrev pub nothing_consumed : Consumed
nothing_consumed = record { inbox = []; archived = []; quarantined = []; deleted = []; notes = [] }

abbrev pub leave : File → Consumed → Consumed
leave f c = record c { inbox = f ∷ c.inbox }

abbrev pub archive : File → Consumed → Consumed
archive f c = record c { archived = f ∷ c.archived }

-- quarantine, or delete if it cannot be moved; a note either way (`discard` has the unlink that fails)
abbrev pub quarantine : File → Consumed → Consumed
quarantine f c =
    if f.movable
    then record c { quarantined = f ∷ c.quarantined; notes = f.name ∷ c.notes }
    else record c { deleted = f ∷ c.deleted; notes = f.name ∷ c.notes }

-- a file that cannot be moved to the archive stays, with a note
abbrev pub leave_noted : File → Consumed → Consumed
leave_noted f c = record c { inbox = f ∷ c.inbox; notes = f.name ∷ c.notes }

-- The messages that a call returns, or none where it raises; and what it leaves.
abbrev pub Reading : Type 0
Reading = Option (List (File × Json)) × Consumed

abbrev pub deliver : File → Json → Reading → Reading
deliver f payload (none, c) = (none, archive f c)
deliver f payload (some out, c) = (some ((f, payload) ∷ out), archive f c)

-- A file that cannot be read: where it can be neither moved nor unlinked, the OSError of the unlink ends
-- the call, with the file and the later ones left.
abbrev pub discard : File → List File → Reading → Reading
discard f later rest =
    if f.movable || f.deletable
    then (rest.0, quarantine f rest.1)
    else (none, record nothing_consumed { inbox = f ∷ later })

-- the try block around open and json.load, and what follows it
unfoldable pub read_one : File → List File → Content → Reading → Reading
read_one f later (parsed payload) rest =
    if f.movable then deliver f payload rest else (rest.0, leave_noted f rest.1)
read_one f later invalid_json rest = discard f later rest
read_one f later unreadable rest = discard f later rest
read_one f later undecodable rest = (none, record nothing_consumed { inbox = f ∷ later })

-- the loop over the entries
unfoldable pub consume : ℕ → ℕ → List File → Reading
unfolding skipped read_one
consume now_ms max_age_ms [] = (some [], nothing_consumed)
consume now_ms max_age_ms (f ∷ later) =
    let rest = consume now_ms max_age_ms later in
    if skipped now_ms max_age_ms f
    then (rest.0, leave f rest.1)
    else read_one f later f.content rest

abbrev pub read_grace_ms : ℕ
read_grace_ms = 100

-- read_and_consume of a directory, none if it does not exist
unfoldable pub read_and_consume : ℕ → Option (List File) → Reading
unfolding consume
read_and_consume now_ms none = (some [], nothing_consumed)
read_and_consume now_ms (some inbox) = consume now_ms read_grace_ms inbox

-- clear_close_sentinel: the inbox without the sentinel, and whether it was there
unfoldable pub clear_close_sentinel : List File → List File × Bool
clear_close_sentinel [] = ([], false)
clear_close_sentinel (f ∷ fs) =
    let rest = clear_close_sentinel fs in
    if is_close_sentinel f.name then (fs, true) else (f ∷ rest.0, rest.1)
