-- ===== src/LaunchAuth/Replay.antt =====
-- internal/launchauth/replay.go: the files that reserve the authorizations already used. The mutex
-- makes a call of Consume one step. What the disk answers to a call is the record `Disk`.
pub mod Lines
pub mod Kept
use Prim.Native.Char.{Char, code}
use Prim.Native.String
use yokai.Prelude.{
  ℕ, ℤ, String, ◌==◌, concat, itoa, parse_int, Bool, true, false, not, ◌&&◌, ◌||◌, Option, none,
  some, is_some, List, [], ◌∷◌, ◌++◌, eqb, if◌then◌else◌,
}
use yokai.Checks.{◌>>◌, ◌>>=◌, fail_if, refuse_if}
use yokai.Deployments.Errors.{Err, plain, sentinel, launch_replayed, wrapped, Result, ok, err}
use yokai.LaunchAuth.Clock.{Time, unix, unix_of, later, is_before}
use yokai.LaunchAuth.Authorization.{lifetime}

-- An entry of the store's directory: a file with its text, or a directory.
pub data Entry : Type 0 where
  file : String → Entry
  directory : Entry

abbrev pub Files : Type 0
Files = List (String × Entry)

unfoldable pub entry_of : Files → String → Option Entry
entry_of [] name = none
entry_of (f ∷ fs) name = let rest = entry_of fs name in if f.0 == name then some f.1 else rest

-- os.Lstat of the store's directory: whether it is a directory, whether it is a symbolic link, and
-- its permissions.
pub record Info : Type 0 where
  pub is_dir : Bool
  pub is_link : Bool
  pub permissions : ℕ

pub data Stat : Type 0 where
  missing : Stat
  unknown : Err → Stat
  found : Info → Stat

-- The answers of one call; `none` is success.
pub record Disk : Type 0 where
  pub first_stat : Stat
  pub make_dir : Option Err
  pub made_stat : Stat
  pub secure : Option Err
  pub last_stat : Stat
  -- an error of the exclusive create but that the file exists
  pub reserve : Option Err
  -- what reached the file before the error
  pub persist : Option (String × Err)
  pub sync : Option Err
  pub close : Option Err
  pub sync_dir : Option Err
  -- whether the directory cannot be listed, a file not read, a file not removed
  pub unlisted : Bool
  pub unread : String → Bool
  pub unremoved : String → Bool

abbrev pub attempt : String → Option Err → Result (Unit {0})
attempt m none = ok tt
attempt m (some e) = err (wrapped m e "")

unfoldable pub inspected : Stat → Result Info
inspected missing =
    err (wrapped "inspect authorization replay store: " (plain "file does not exist") "")
inspected (unknown e) = err (wrapped "inspect authorization replay store: " e "")
inspected (found i) = ok i

-- The first inspection, which makes the directory if it is missing.
unfoldable pub made : Disk → Stat → Result Info
unfolding inspected
made disk missing =
    attempt "create authorization replay store: " disk.make_dir >> inspected disk.made_stat
made disk (unknown e) = inspected (unknown e)
made disk (found i) = inspected (found i)

-- prepareLocked
unfoldable pub prepare_locked : String → Disk → Result (Unit {0})
unfolding made
prepare_locked dir disk =
    refuse_if (dir == "") "authorization replay store is not configured"
    >> (made disk disk.first_stat >>= λ i.
        refuse_if (not i.is_dir || i.is_link)
          "authorization replay store is not a private directory"
        >> (attempt "secure authorization replay store: " disk.secure
            >> (inspected disk.last_stat >>= λ last.
                refuse_if (not last.is_dir || last.is_link || not (eqb last.permissions 448))
                  "authorization replay store is not a private directory")))

-- A space, a line feed, a carriage return or a tab.
unfoldable pub is_blank : Char → Bool
is_blank ch = let c = code ch in eqb c 32 || eqb c 10 || eqb c 13 || eqb c 9

unfoldable pub drop_start : String → String
unfolding is_blank
drop_start String.[] = ""
drop_start (String.◌∷◌ c s) = let rest = drop_start s in if is_blank c then rest else String.◌∷◌ c s

unfoldable pub drop_end : String → String
unfolding is_blank
drop_end String.[] = ""
drop_end (String.◌∷◌ c s) =
    let rest = drop_end s in if is_blank c && rest == "" then "" else String.◌∷◌ c rest

-- stringTrimSpace
unfoldable pub string_trim_space : String → String
unfolding drop_start drop_end
string_trim_space s = drop_end (drop_start s)

-- Whether the text of a file is a time whose replay window is over.
unfoldable pub is_over : Option ℤ → Time → Bool
unfolding is_before
is_over none now = false
is_over (some expires) now = is_before (later lifetime (unix expires)) now

unfoldable pub is_pruned : Disk → Time → String → Entry → Bool
unfolding is_over string_trim_space
is_pruned disk now name directory = false
is_pruned disk now name (file text) =
    not (disk.unread name)
    && is_over (parse_int (string_trim_space text)) now
    && not (disk.unremoved name)

-- The loop of pruneExpired.
unfoldable pub pruned : Disk → Time → Files → Files
unfolding is_pruned
pruned disk now [] = []
pruned disk now (f ∷ fs) =
    let rest = pruned disk now fs in if is_pruned disk now f.0 f.1 then rest else f ∷ rest

-- pruneExpired
unfoldable pub prune_expired : Disk → Time → Files → Files
unfolding pruned
prune_expired disk now files = if disk.unlisted then files else pruned disk now files

-- The text that is written: the expiry, and a line feed.
unfoldable pub line : Time → String
line expires_at = concat (itoa (unix_of expires_at.sec) ∷ "\n" ∷ [])

abbrev written : Disk → Time → String
written disk expires_at = elim disk.persist [ none ↦ line expires_at | some (part, e) ↦ part ]

abbrev persist_error : Option (String × Err) → Option Err
persist_error none = none
persist_error (some (part, e)) = some e

-- What Consume does with the file that it has created; its errors leave the file.
unfoldable pub make_durable : Disk → Result (Unit {0})
make_durable disk =
    attempt "persist launch authorization reservation: " (persist_error disk.persist)
    >> (attempt "sync launch authorization reservation: " disk.sync
        >> (attempt "close launch authorization reservation: " disk.close
            >> attempt "sync launch authorization replay store: " disk.sync_dir))

-- The files and the error after the reservation.
abbrev settle_use : Disk → Time → Files → Result (Unit {0}) → Files × Option Err
settle_use disk now files (err e) = (files, some e)
settle_use disk now files (ok done) = (prune_expired disk now files, none)

-- The exclusive create: a file that exists is never written.
unfoldable pub reserve :
    Disk → Files → String → Time → Time → Option Err → Option Entry → Files × Option Err
unfolding make_durable
reserve disk files id expires_at now (some e) entry =
    (files, some (wrapped "reserve launch authorization: " e ""))
reserve disk files id expires_at now none (some entry) = (files, some (sentinel launch_replayed))
reserve disk files id expires_at now none none =
    settle_use disk now (files ++ ((id, file (written disk expires_at)) ∷ [])) (make_durable disk)

abbrev prepared : Result (Unit {0}) → Files → Files × Option Err → Files × Option Err
prepared (err e) files done = (files, some e)
prepared (ok secured) files done = done

-- Consume
unfoldable pub consume : String → Disk → Files → String → Time → Time → Files × Option Err
unfolding prepare_locked reserve
consume dir disk files id expires_at now =
    prepared (prepare_locked dir disk) files
      (reserve disk files id expires_at now disk.reserve (entry_of files id))
