-- ===== src/LaunchAuth/Replay/Kept.antt =====
-- A reserved authorization stays reserved while its token can still be verified.
use yokai.Prelude.{
  ℕ, ◌-◌, ◌^◌, ◌<◌, ◌≡◌, refl, ap, sym, ◌∙◌, ℤ, pos, negsuc, int_lt, int_eq, int_eq_iff, ltb,
  String, ◌==◌, eq_iff, eq_refl, parse_int, true, false, Bool-cases, inl, inr, Option, none, some,
  is_some, [], ◌∷◌, ◌++◌, arith,
}
use yokai.Deployments.Errors.{Err, Result, ok, err}
use yokai.LaunchAuth.Clock.{Time, later, later_sec, is_before}
use yokai.LaunchAuth.Replay.{
  Entry, file, Files, Disk, entry_of, is_pruned, is_over, pruned, prune_expired, line,
  string_trim_space, reserve, make_durable, prepare_locked, consume, settle_use, written, prepared,
}

-- If a clock `b` is before a time, and another clock is at most some seconds ahead of `b`, the
-- other is at most those seconds ahead of the time.
later_sec_mono :
    (d : ℕ) (b t : ℤ)
    → int_lt b t ≡ true
    → int_lt b (pos (2 ^ 63 - 1 - d)) ≡ true
    → d < 2 ^ 62
    → int_lt (later_sec d b) (later_sec d t) ≡ true
unfolding later_sec
later_sec_mono d (pos m) (pos n) h early small = ground (arith, h, early)
later_sec_mono d (pos m) (negsuc n) h early small = ground (arith, h, early)
later_sec_mono d (negsuc m) (pos n) h early small = ground (arith, h, early)
later_sec_mono d (negsuc m) (negsuc n) h early small = ground (arith, h, early)

-- What stands no later than the first of two times stands before the second.
int_lt_trans : (a b c : ℤ) → int_lt a b ≡ true → int_lt a c ≡ false → int_lt b c ≡ false
int_lt_trans (pos a) (pos b) (pos c) h k = ground (arith, h, k)
int_lt_trans (pos a) (pos b) (negsuc c) h k = refl
int_lt_trans (pos a) (negsuc b) c h k = absurd (ground (arith, h))
int_lt_trans (negsuc a) b (pos c) h k = absurd (ground (arith, k))
int_lt_trans (negsuc a) (pos b) (negsuc c) h k = refl
int_lt_trans (negsuc a) (negsuc b) (negsuc c) h k = ground (arith, h, k)

int_lt-ne : (a b c : ℤ) → int_lt a b ≡ true → int_lt a c ≡ false → int_eq b c ≡ false
int_lt-ne (pos a) (pos b) (pos c) h k = ground (arith, h, k)
int_lt-ne (pos a) (pos b) (negsuc c) h k = refl
int_lt-ne (pos a) (negsuc b) c h k = absurd (ground (arith, h))
int_lt-ne (negsuc a) b (pos c) h k = absurd (ground (arith, k))
int_lt-ne (negsuc a) (pos b) (negsuc c) h k = refl
int_lt-ne (negsuc a) (negsuc b) (negsuc c) h k = ground (arith, h, k)

-- If a clock `b` is before a time, and another clock is at most some seconds ahead of `b`, the
-- other is at most those seconds ahead of the time.
pub is_before-later :
    (d : ℕ) (b t other : Time)
    → is_before b t ≡ true
    → int_lt b.sec (pos (2 ^ 63 - 1 - d)) ≡ true
    → d < 2 ^ 62
    → is_before (later d b) other ≡ false
    → is_before (later d t) other ≡ false
unfolding is_before
is_before-later d b t other h early small k = elim (Bool-cases (int_lt b.sec t.sec)) [
  | inl e ↦
      let ahead = later_sec_mono d b.sec t.sec e early small in
      let reached : int_lt (later_sec d b.sec) other.sec ≡ false = ground (arith, k) in
      ground (
        arith,
        int_lt_trans (later_sec d b.sec) (later_sec d t.sec) other.sec ahead reached,
        int_lt-ne (later_sec d b.sec) (later_sec d t.sec) other.sec ahead reached,
      )
  | inr e ↦
      let same : b.sec ≡ t.sec = (int_eq_iff b.sec t.sec).0 (ground (arith, h, e)) in
      let earlier : ltb b.nsec t.nsec ≡ true = ground (arith, h, e) in
      let reached : is_before (record { sec = later_sec d t.sec; nsec = b.nsec }) other ≡ false =
        ap (λ s. is_before (record { sec = later_sec d s; nsec = b.nsec }) other) (sym same) ∙ k in
      ground (arith, earlier, reached)
]

first_entry : (a b : Entry) → some a ≡ some b → a ≡ b
first_entry a b h = cc

entry_of-pruned :
    (disk : Disk) (now : Time) (fs : Files) (name : String) (e : Entry)
    → entry_of fs name ≡ some e
    → is_pruned disk now name e ≡ false
    → entry_of (pruned disk now fs) name ≡ some e
unfolding entry_of pruned
entry_of-pruned disk now [] name e h k = h
entry_of-pruned disk now (f ∷ fs) name e h k = elim (Bool-cases (f.0 == name)) [
  | inl same ↦
      let named : f.0 ≡ name = (eq_iff f.0 name).0 same in
      let filed : f.1 ≡ e = first_entry f.1 e (ground (arith, same, h)) in
      let kept : is_pruned disk now f.0 f.1 ≡ false =
        ap (λ n. is_pruned disk now n f.1) named ∙ ap (is_pruned disk now name) filed ∙ k in
      rw kept (ground (arith, same, h))
  | inr other ↦
      let rest : entry_of (pruned disk now fs) name ≡ some e =
        entry_of-pruned disk now fs name e (ground (arith, other, h)) k in
      ground (arith, other, rest)
]

entry_of-append :
    (fs more : Files) (name : String) (e : Entry)
    → entry_of fs name ≡ some e
    → entry_of (fs ++ more) name ≡ some e
unfolding entry_of
entry_of-append [] more name e h = absurd (ground (arith, h))
entry_of-append (f ∷ fs) more name e h = ground (arith, h, entry_of-append fs more name e)

entry_of-added :
    (fs : Files) (name : String) (e : Entry)
    → entry_of fs name ≡ none
    → entry_of (fs ++ ((name, e) ∷ [])) name ≡ some e
unfolding entry_of
entry_of-added [] name e h = ground (arith, eq_refl name)
entry_of-added (f ∷ fs) name e h = ground (arith, h, entry_of-added fs name e)

prune_expired-keeps :
    (disk : Disk) (now : Time) (fs : Files) (name : String) (e : Entry)
    → entry_of fs name ≡ some e
    → is_pruned disk now name e ≡ false
    → entry_of (prune_expired disk now fs) name ≡ some e
unfolding prune_expired
prune_expired-keeps disk now fs name e h k =
    ground (arith, h, entry_of-pruned disk now fs name e h k)

is_pruned-fresh :
    (disk : Disk) (now : Time) (name text : String)
    → is_over (parse_int (string_trim_space text)) now ≡ false
    → is_pruned disk now name (file text) ≡ false
unfolding is_pruned
is_pruned-fresh disk now name text h = ground (arith, h)

module _ (dir : String) (disk : Disk) (now : Time) where
  settle_use-keeps :
      (fs : Files) (r : Result (Unit {0})) (name : String) (e : Entry)
      → entry_of fs name ≡ some e
      → is_pruned disk now name e ≡ false
      → entry_of (settle_use disk now fs r).0 name ≡ some e
  settle_use-keeps fs (err failed) name e h k = h
  settle_use-keeps fs (ok done) name e h k = prune_expired-keeps disk now fs name e h k

  reserve-keeps :
      (fs : Files) (id : String) (expires : Time) (fault : Option Err) (entry : Option Entry)
      (name : String) (e : Entry)
      → entry_of fs name ≡ some e
      → is_pruned disk now name e ≡ false
      → entry_of (reserve disk fs id expires now fault entry).0 name ≡ some e
  unfolding reserve
  reserve-keeps fs id expires (some f) entry name e h k = h
  reserve-keeps fs id expires none (some other) name e h k = h
  reserve-keeps fs id expires none none name e h k =
      let added = (id, file (written disk expires)) ∷ [] in
      settle_use-keeps (fs ++ added) (make_durable disk) name e (entry_of-append fs added name e h)
        k

  prepared-keeps :
      (r : Result (Unit {0})) (fs : Files) (done : Files × Option Err) (name : String) (e : Entry)
      → entry_of fs name ≡ some e
      → entry_of done.0 name ≡ some e
      → entry_of (prepared r fs done).0 name ≡ some e
  prepared-keeps (err f) fs done name e h k = h
  prepared-keeps (ok u) fs done name e h k = k

  -- A call keeps the file of every authorization whose replay window is not over.
  pub consume-keeps :
      (fs : Files) (id : String) (expires : Time) (name text : String)
      → entry_of fs name ≡ some (file text)
      → is_over (parse_int (string_trim_space text)) now ≡ false
      → entry_of (consume dir disk fs id expires now).0 name ≡ some (file text)
  unfolding consume
  consume-keeps fs id expires name text h k =
      prepared-keeps (prepare_locked dir disk) fs
        (reserve disk fs id expires now disk.reserve (entry_of fs id)) name (file text) h
        (reserve-keeps fs id expires disk.reserve (entry_of fs id) name (file text) h
          (is_pruned-fresh disk now name text k))

  reserve-refuses :
      (fs : Files) (id : String) (expires : Time) (fault : Option Err) (entry : Option Entry)
      → is_some entry ≡ true
      → is_some (reserve disk fs id expires now fault entry).1 ≡ true
  unfolding reserve
  reserve-refuses fs id expires (some f) entry h = refl
  reserve-refuses fs id expires none (some e) h = refl
  reserve-refuses fs id expires none none h = absurd (ground (arith, h))

  prepared-refuses :
      (r : Result (Unit {0})) (fs : Files) (done : Files × Option Err)
      → is_some done.1 ≡ true
      → is_some (prepared r fs done).1 ≡ true
  prepared-refuses (err f) fs done h = refl
  prepared-refuses (ok u) fs done h = h

  -- An authorization whose file is there is not used again.
  pub consume-refuses :
      (fs : Files) (id : String) (expires : Time)
      → is_some (entry_of fs id) ≡ true
      → is_some (consume dir disk fs id expires now).1 ≡ true
  unfolding consume
  consume-refuses fs id expires h =
      prepared-refuses (prepare_locked dir disk) fs
        (reserve disk fs id expires now disk.reserve (entry_of fs id))
        (reserve-refuses fs id expires disk.reserve (entry_of fs id) h)

  settle_use-accepts :
      (fs : Files) (r : Result (Unit {0}))
      → is_some (settle_use disk now fs r).1 ≡ false
      → (r ≡ ok tt) × ((settle_use disk now fs r).0 ≡ prune_expired disk now fs)
  settle_use-accepts fs (err e) h = absurd (ground (arith, h))
  settle_use-accepts fs (ok done) h = (refl, refl)

  whole_line : (expires : Time) → make_durable disk ≡ ok tt → written disk expires ≡ line expires
  unfolding make_durable
  whole_line expires h = ground (arith, h)

  reserve-reserves :
      (fs : Files) (id : String) (expires : Time) (fault : Option Err) (entry : Option Entry)
      → entry_of fs id ≡ entry
      → is_some (reserve disk fs id expires now fault entry).1 ≡ false
      → is_over (parse_int (string_trim_space (line expires))) now ≡ false
      → entry_of (reserve disk fs id expires now fault entry).0 id ≡ some (file (line expires))
  unfolding reserve
  reserve-reserves fs id expires (some f) entry same h k = absurd (ground (arith, h))
  reserve-reserves fs id expires none (some e) same h k = absurd (ground (arith, h))
  reserve-reserves fs id expires none none same h k =
      let more = fs ++ ((id, file (written disk expires)) ∷ []) in
      let (durable, settled) = settle_use-accepts more (make_durable disk) h in
      let text = whole_line expires durable in
      let added : entry_of more id ≡ some (file (line expires)) =
        entry_of-added fs id (file (written disk expires)) same ∙ ap (λ t. some (file t)) text in
      ap (λ l. entry_of l id) settled
      ∙ prune_expired-keeps disk now more id (file (line expires)) added
          (is_pruned-fresh disk now id (line expires) k)

  prepared-accepts :
      (r : Result (Unit {0})) (fs : Files) (done : Files × Option Err)
      → is_some (prepared r fs done).1 ≡ false
      → (is_some done.1 ≡ false) × ((prepared r fs done).0 ≡ done.0)
  prepared-accepts (err f) fs done h = absurd (ground (arith, h))
  prepared-accepts (ok u) fs done h = (h, refl)

  -- A call that succeeds leaves the file of its authorization, with the whole line.
  pub consume-reserves :
      (fs : Files) (id : String) (expires : Time)
      → is_some (consume dir disk fs id expires now).1 ≡ false
      → is_over (parse_int (string_trim_space (line expires))) now ≡ false
      → entry_of (consume dir disk fs id expires now).0 id ≡ some (file (line expires))
  unfolding consume
  consume-reserves fs id expires h k =
      let done = reserve disk fs id expires now disk.reserve (entry_of fs id) in
      let (accepted, same) = prepared-accepts (prepare_locked dir disk) fs done h in
      ap (λ l. entry_of l id) same
      ∙ reserve-reserves fs id expires disk.reserve (entry_of fs id) refl accepted k
