-- ===== src/Pow/Sharing.antt =====
-- The cookie of a search in src/ntb-pow.c, which the caller, the queue, the threads and the idle source
-- share. Each step is what is done while the mutex is held.
use notbit.Common.{
  ℕ, suc, ◌+◌, ◌-◌, ◌≤◌, ◌≡◌, ◌↔◌, refl, arith, Bool, true, false, ltb, leb, if◌then◌else◌,
}

-- The part of struct ntb_pow_cookie that is shared. `queued` tells that it is in the queue, `freed` that
-- its memory was released, `searching` how many threads are in find_nonce with it, and `held` that its
-- caller neither cancelled it nor was called back.
pub record Cookie : Type 0 where
  pub ref_count : ℕ
  pub next_nonce_offset : ℕ
  pub nonce : ℕ
  pub done : Bool
  pub idle_source : Bool
  pub queued : Bool
  pub freed : Bool
  pub searching : ℕ
  pub held : Bool

-- The cookie that ntb_pow_calculate makes. The nonce is not set.
abbrev pub new_cookie : ℕ → Cookie
new_cookie junk = record {
  ref_count = 2;
  next_nonce_offset = 0;
  nonce = junk;
  done = false;
  idle_source = false;
  queued = true;
  freed = false;
  searching = 0;
  held = true;
}

unfoldable pub unref_cookie : Cookie → Cookie
unref_cookie c =
    let left = c.ref_count - 1 in
    record c { ref_count = left; freed = if leb left 0 then true else c.freed }

unfoldable pub remove_queued_cookie : Cookie → Cookie
unfolding unref_cookie
remove_queued_cookie c = unref_cookie (record c { queued = false })

-- thread_func takes the first cookie of the queue.
unfoldable pub take_cookie : ℕ → Cookie → Cookie
unfolding remove_queued_cookie
take_cookie n_threads c =
    let offset = suc c.next_nonce_offset in
    let taken = record c {
      ref_count = suc c.ref_count;
      next_nonce_offset = offset;
      searching = suc c.searching;
    } in
    if leb n_threads offset then remove_queued_cookie taken else taken

unfoldable pub set_solution : ℕ → Cookie → Cookie
set_solution nonce c =
    if c.done
    then c
    else record c { nonce = nonce; done = true; idle_source = true; ref_count = suc c.ref_count }

-- thread_func behind find_nonce.
unfoldable pub leave_cookie : Cookie → Cookie
unfolding unref_cookie
leave_cookie c = unref_cookie (record c { searching = c.searching - 1 })

unfoldable pub idle_cb : Cookie → Cookie
unfolding unref_cookie
idle_cb c = unref_cookie (unref_cookie (record c { idle_source = false; held = false }))

unfoldable pub cancel : ℕ → Cookie → Cookie
unfolding unref_cookie remove_queued_cookie
cancel n_threads c =
    let unqueued = if ltb c.next_nonce_offset n_threads then remove_queued_cookie c else c in
    let quiet =
      if unqueued.idle_source
      then unref_cookie (record unqueued { idle_source = false })
      else unqueued in
    unref_cookie (record quiet { done = true; held = false })

-- What happens to a cookie, under the conditions on which it does.
pub data Step (n_threads : ℕ) : Cookie → Cookie → Type 0 where
  takes : (c : Cookie) → c.queued ≡ true → Step n_threads c (take_cookie n_threads c)
  solves : (c : Cookie) (nonce : ℕ) → 1 ≤ c.searching → Step n_threads c (set_solution nonce c)
  leaves : (c : Cookie) → 1 ≤ c.searching → Step n_threads c (leave_cookie c)
  idles : (c : Cookie) → c.idle_source ≡ true → Step n_threads c (idle_cb c)
  cancels : (c : Cookie) → c.held ≡ true → Step n_threads c (cancel n_threads c)

pub data Reach (n_threads : ℕ) (start : Cookie) : Cookie → Type 0 where
  here : Reach n_threads start start
  next : {c d : Cookie} → Reach n_threads start c → Step n_threads c d → Reach n_threads start d

abbrev pub bit : Bool → ℕ
bit true = 1
bit false = 0

-- The count is that of those who use the cookie, and it is released exactly when that is 0.
record IsCounted (n_threads : ℕ) (c : Cookie) : Type 0 where
  refs : c.ref_count ≡ bit c.queued + (c.searching + (bit c.idle_source + bit c.held))
  freed : c.freed ≡ leb c.ref_count 0
  idle_held : c.idle_source ≡ true → c.held ≡ true
  in_queue : c.held ≡ true → c.queued ≡ ltb c.next_nonce_offset n_threads
  idle_done : c.idle_source ≡ true → c.done ≡ true
  unsolved : c.done ≡ false → c.held ≡ true

-- Nobody uses a cookie: it is not in the queue, no thread searches with it, it has no idle source, and
-- its caller does not hold it.
abbrev pub IsUnused : Cookie → Type 0
IsUnused c = (c.queued ≡ false) × (c.searching ≡ 0) × (c.idle_source ≡ false) × (c.held ≡ false)

module _ (n_threads : ℕ) where
  leave_cookie-IsCounted :
      (c : Cookie) → 1 ≤ c.searching → IsCounted n_threads c → IsCounted n_threads (leave_cookie c)
  unfolding leave_cookie unref_cookie
  leave_cookie-IsCounted c s h = record {
    refs = omega (arith, h.refs);
    freed = ground (arith, h.refs, h.freed);
    idle_held = h.idle_held;
    in_queue = h.in_queue;
    idle_done = h.idle_done;
    unsolved = h.unsolved;
  }

  set_solution-IsCounted :
      (nonce : ℕ) (c : Cookie)
      → 1 ≤ c.searching
      → IsCounted n_threads c
      → IsCounted n_threads (set_solution nonce c)
  unfolding set_solution
  set_solution-IsCounted nonce c s h = ground arith

  take_cookie-IsCounted :
      (c : Cookie)
      → c.queued ≡ true
      → IsCounted n_threads c
      → IsCounted n_threads (take_cookie n_threads c)
  unfolding take_cookie remove_queued_cookie unref_cookie
  take_cookie-IsCounted c q h = ground arith

  idle_cb-IsCounted :
      (c : Cookie) → c.idle_source ≡ true → IsCounted n_threads c → IsCounted n_threads (idle_cb c)
  unfolding idle_cb unref_cookie
  idle_cb-IsCounted c i h = ground arith

  cancel-IsCounted :
      (c : Cookie)
      → c.held ≡ true
      → IsCounted n_threads c
      → IsCounted n_threads (cancel n_threads c)
  unfolding cancel remove_queued_cookie unref_cookie
  cancel-IsCounted c i h = ground arith

  Step-IsCounted :
      {c d : Cookie} → Step n_threads c d → IsCounted n_threads c → IsCounted n_threads d
  Step-IsCounted (takes c q) h = take_cookie-IsCounted c q h
  Step-IsCounted (solves c nonce s) h = set_solution-IsCounted nonce c s h
  Step-IsCounted (leaves c s) h = leave_cookie-IsCounted c s h
  Step-IsCounted (idles c i) h = idle_cb-IsCounted c i h
  Step-IsCounted (cancels c k) h = cancel-IsCounted c k h

  Reach-IsCounted :
      (junk : ℕ) (c : Cookie)
      → 1 ≤ n_threads
      → Reach n_threads (new_cookie junk) c
      → IsCounted n_threads c
  Reach-IsCounted junk c some_threads here = record {
    refs = refl;
    freed = refl;
    idle_held = λ e. cc;
    in_queue = λ e. ground arith;
    idle_done = λ e. cc;
    unsolved = λ e. refl;
  }
  Reach-IsCounted junk d some_threads (next {c} r s) =
      Step-IsCounted s (Reach-IsCounted junk c some_threads r)

  -- However the caller, the threads and the main loop take turns with a new cookie, its memory is released
  -- exactly when none of them uses it any more. There is one thread at least, threads take a cookie only
  -- from the queue, and the caller does not cancel one that it was called back for.
  pub Reach-freed_iff :
      (junk : ℕ) (c : Cookie)
      → 1 ≤ n_threads
      → Reach n_threads (new_cookie junk) c
      → (c.freed ≡ true) ↔ IsUnused c
  Reach-freed_iff junk c some_threads r =
      let h = Reach-IsCounted junk c some_threads r in
      (λ e. ground (arith, h.refs, h.freed), λ e. ground (arith, h.refs, h.freed))
