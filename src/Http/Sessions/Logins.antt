-- ===== src/Http/Sessions/Logins.antt =====
-- Which user a session has, after logging in and out.
use penn_cloud.Prelude.{
  ℕ, zero, suc, ◌+◌, ◌<◌, Bytes, bytes_eq, bytes_eq_iff, bytes_eq_refl, ◌≡◌, refl, sym, ap, ◌∙◌,
  true, false, Option, none, some, [], ◌∷◌, ◌++◌, ◌&&◌, not, All, arith, if◌then◌else◌, to_string,
  to_string-IsDigit, IsDigit, getlines, inl, inr, Bool-cases, Option-cases,
}
use mathlib.Core.Path.{subst}
use penn_cloud.Op.{put, cput, delete}
use penn_cloud.KeyValue
use penn_cloud.KeyValue.{KeyValue}
use penn_cloud.Service.{Service, Serves, is_err}
use penn_cloud.Mailbox.{is_blank}
use penn_cloud.Http.Sessions.{
  session_row, active_column, remaining_users, get_username_from_session, free_sid, open_session,
  generate_session_cookie, handle_logout,
}

-- The user that an entry of the row stands for.
abbrev pub user_in : Option Bytes → Bytes
user_in none = []
user_in (some username) = if is_err username then [] else username

blank_or_err : (v : Bytes) → (not (is_blank v) && not (is_err v)) ≡ false → user_in (some v) ≡ []
unfolding is_err bytes_eq
blank_or_err [] h = refl
blank_or_err (x ∷ v) h = ground (arith, h)

-- A write to the list of active users leaves the sessions alone.
active-put :
    (v c : Bytes) (f : KeyValue)
    → bytes_eq c active_column ≡ false
    → KeyValue.write (put session_row active_column v) f session_row c ≡ f session_row c
unfolding KeyValue.write
active-put v c f h = ground (arith, h, bytes_eq_iff c active_column, bytes_eq_iff active_column c)

active-cput :
    (current v c : Bytes) (f : KeyValue)
    → bytes_eq c active_column ≡ false
    → KeyValue.write (cput session_row active_column current v) f session_row c ≡ f session_row c
unfolding KeyValue.write
active-cput current v c f h =
    ground (arith, h, bytes_eq_iff c active_column, bytes_eq_iff active_column c)

deleted-user :
    (sid other : Bytes) (f : KeyValue)
    → user_in (KeyValue.write (delete session_row sid) f session_row other)
      ≡ (if bytes_eq sid other then [] else user_in (f session_row other))
unfolding KeyValue.write
deleted-user sid other f = ground (arith, bytes_eq_refl session_row)

own-put :
    (sid username : Bytes) (f : KeyValue)
    → KeyValue.write (put session_row sid username) f session_row sid ≡ some username
unfolding KeyValue.write
own-put sid username f = ground (arith, bytes_eq_refl session_row, bytes_eq_refl sid)

other-put :
    (sid c username : Bytes) (f : KeyValue)
    → bytes_eq sid c ≡ false
    → KeyValue.write (put session_row sid username) f session_row c ≡ f session_row c
unfolding KeyValue.write
other-put sid c username f h = ground (arith, h)

-- A number is not the name of the list of active users.
digits-differ : (s : Bytes) → All IsDigit s → bytes_eq s active_column ≡ false
unfolding bytes_eq
digits-differ [] h = refl
digits-differ (x ∷ s) h = ground (arith, h.0)

digits-apart : (n : ℕ) → bytes_eq (to_string n) active_column ≡ false
digits-apart n = digits-differ (to_string n) (to_string-IsDigit n)

module _ {S : Type 0} (service : Service S) (Shows : S → KeyValue → Type 0)
    (At : S → Bytes → Bytes → Type 0) (serves : Serves service Shows At) where
  -- The session's entry, and the map stays.
  pub get_username-user_in :
      (s : S) (f : KeyValue) (sid : Bytes)
      → Shows s f
      → ((get_username_from_session service s sid).1 ≡ user_in (f session_row sid))
        × Shows (get_username_from_session service s sid).0 f
  unfolding get_username_from_session
  get_username-user_in s f sid shows = of_entry _ refl
    where
      of_entry :
          (entry : Option Bytes)
          → f session_row sid ≡ entry
          → ((get_username_from_session service s sid).1 ≡ user_in entry)
            × Shows (get_username_from_session service s sid).0 f
      of_entry none e = ground (
        arith,
        serves.lookup_host s f session_row shows,
        serves.lookup_shows s f session_row shows,
        serves.get_missing _ f _ session_row sid (serves.lookup_shows s f session_row shows)
            (serves.lookup_at s f session_row shows) e,
      )
      of_entry (some username) e = ground (
        arith,
        serves.lookup_host s f session_row shows,
        serves.lookup_shows s f session_row shows,
        serves.get_value _ f _ session_row sid username (serves.lookup_shows s f session_row shows)
            (serves.lookup_at s f session_row shows) e,
      )

  -- The map after a logout.
  handle_logout-Shows :
      (s : S) (f : KeyValue) (sid : Bytes)
      → Shows s f
      → let active : Bytes =
          service.get
            (service.lookup s session_row).0
            (service.lookup s session_row).1
            session_row
            active_column in
        Shows (handle_logout service s sid) (
          KeyValue.write
            (cput session_row active_column active (remaining_users sid (getlines b';' active)))
            (KeyValue.write (delete session_row sid) f))
  unfolding handle_logout
  handle_logout-Shows s f sid shows =
      let looked = serves.lookup_shows s f session_row shows in
      let here = serves.lookup_at s f session_row shows in
      let deleted = serves.write_shows _ f _ (delete session_row sid) looked here in
      rw (serves.lookup_host s f session_row shows, handle_logout)
        (serves.write_shows _ _ _ (cput session_row active_column _ _) deleted
          (serves.write_keeps_at _ _ session_row _ (delete session_row sid) here))

  -- On a store that serves a map, a logout ends the session and no other one: every session but
  -- that one has the user that it had, and the session itself has none. The name of the list of
  -- active users is not taken for a session here.
  pub handle_logout-user_in :
      (s : S) (f : KeyValue) (sid other : Bytes)
      → Shows s f
      → bytes_eq other active_column ≡ false
      → (get_username_from_session service (handle_logout service s sid) other).1
        ≡ (if bytes_eq sid other then [] else user_in (f session_row other))
  handle_logout-user_in s f sid other shows apart =
      (get_username-user_in _ _ other (handle_logout-Shows s f sid shows)).0
      ∙ ap user_in (active-cput _ _ other _ apart)
      ∙ deleted-user sid other f

  -- The map after a session was opened: its user, and every other session as before.
  record IsOpened (f g : KeyValue) (sid username : Bytes) : Type 0 where
    pub own : g session_row sid ≡ some username
    pub others :
        (c : Bytes)
        → bytes_eq sid c ≡ false
        → bytes_eq c active_column ≡ false
        → g session_row c ≡ f session_row c

  record Opened (s : S) (f : KeyValue) (sid username : Bytes) : Type 0 where
    pub map : KeyValue
    pub shows : Shows s map
    pub opened : IsOpened f map sid username

  open_session-Opened :
      (s : S) (f : KeyValue) (worker sid username : Bytes)
      → Shows s f
      → At s worker session_row
      → bytes_eq sid active_column ≡ false
      → Opened (open_session service s worker sid username) f sid username
  unfolding open_session
  open_session-Opened s f worker sid username shows here apart =
      let active : Bytes = service.get s worker session_row active_column in
      let g : KeyValue = KeyValue.write (put session_row sid username) f in
      let written = serves.write_shows s f worker (put session_row sid username) shows here in
      let there =
        serves.write_keeps_at s worker session_row worker (put session_row sid username) here in
      elim (Bool-cases (is_err active)) [
        | inl e ↦ record {
          map =
              KeyValue.write (put session_row active_column (username ++ b':' ∷ (sid ++ b';' ∷ [])))
                g;
          shows =
              rw (e, open_session)
                (serves.write_shows _ g worker (put session_row active_column _) written there);
          opened = record {
            own = active-put _ sid g apart ∙ own-put sid username f;
            others = λ c other far. active-put _ c g far ∙ other-put sid c username f other;
          };
        }
        | inr e ↦ record {
          map =
              KeyValue.write
                (cput session_row active_column active
                  (active ++ b';' ∷ (username ++ b':' ∷ (sid ++ b';' ∷ []))))
                g;
          shows =
              rw (e, open_session)
                (serves.write_shows _ g worker (cput session_row active_column active _) written
                  there);
          opened = record {
            own = active-cput _ _ sid g apart ∙ own-put sid username f;
            others = λ c other far. active-cput _ _ c g far ∙ other-put sid c username f other;
          };
        }
      ]

  user_in-opened :
      (f g : KeyValue) (sid username other : Bytes)
      → IsOpened f g sid username
      → is_err username ≡ false
      → bytes_eq other active_column ≡ false
      → user_in (g session_row other)
        ≡ (if bytes_eq sid other then username else user_in (f session_row other))
  user_in-opened f g sid username other h plain apart = elim (Bool-cases (bytes_eq sid other)) [
    | inl e ↦ rw (e, sym ((bytes_eq_iff sid other).0 e), h.own, plain) refl
    | inr e ↦ rw (e, h.others other e apart) refl
  ]

  free_sid-stop :
      (random : ℕ → ℕ) (fuel k : ℕ) (s : S) (worker : Bytes)
      → is_err (service.get s worker session_row (to_string (random k))) ≡ true
      → free_sid service random (suc fuel) k s worker ≡ some (to_string (random k))
  unfolding free_sid
  free_sid-stop random fuel k s worker e =
      let stored : Bytes = service.get s worker session_row (to_string (random k)) in
      let free : (not (is_blank stored) && not (is_err stored)) ≡ false = ground (arith, e) in
      rw (free, free_sid) refl

  -- A number at which the loop stops has no user: nothing is stored for it, or only a blank text or
  -- one like an error text.
  stop-user_in :
      (s : S) (f : KeyValue) (worker sid : Bytes)
      → Shows s f
      → At s worker session_row
      → (let stored : Bytes = service.get s worker session_row sid in
          not (is_blank stored) && not (is_err stored))
        ≡ false
      → user_in (f session_row sid) ≡ []
  stop-user_in s f worker sid shows here stops = elim (Option-cases (f session_row sid)) [
    | inl missing ↦ rw missing refl
    | inr (v, stored) ↦ rw stored (
        blank_or_err v
          (rw (sym (serves.get_value s f worker session_row sid v shows here stored)) stops))
  ]

  -- A number among the first ones that names no session is enough to find one, and the one that is
  -- found has no user.
  free_sid-some :
      (random : ℕ → ℕ) (fuel k j : ℕ) (s : S) (f : KeyValue) (worker : Bytes)
      → Shows s f
      → At s worker session_row
      → j < fuel
      → f session_row (to_string (random (k + j))) ≡ none
      → (n : ℕ) × (free_sid service random fuel k s worker ≡ some (to_string n))
        × (user_in (f session_row (to_string n)) ≡ [])
  unfolding free_sid
  free_sid-some random zero k j s f worker shows here small free = absurd (omega (arith, small))
  free_sid-some random (suc fuel) k zero s f worker shows here small free =
      let free_now : f session_row (to_string (random k)) ≡ none =
        subst (λ m. f session_row (to_string (random m)) ≡ none) (omega arith) free in
      (
        random k,
        free_sid-stop random fuel k s worker
            (serves.get_missing s f worker session_row _ shows here free_now),
        ap user_in free_now,
      )
  free_sid-some random (suc fuel) k (suc j) s f worker shows here small free =
      let stored : Bytes = service.get s worker session_row (to_string (random k)) in
      let later : f session_row (to_string (random (k + 1 + j))) ≡ none =
        subst (λ m. f session_row (to_string (random m)) ≡ none) (omega arith) free in
      elim (Bool-cases (not (is_blank stored) && not (is_err stored))) [
        | inr e ↦ (random k, rw (e, free_sid) refl, stop-user_in s f worker _ shows here e)
        | inl e ↦
            let (n, found, unused) =
              free_sid-some random fuel (k + 1) j s f worker shows here (omega (arith, small))
                later in
            (n, rw (e, free_sid) found, unused)
      ]

  -- On a store that serves a map, opening a session for a user whose name is no error text succeeds
  -- as soon as one of the first numbers of `rand` names no session: the number that is returned had
  -- no user, from then on it has this one, and every other session has the user that it had.
  pub generate_session_cookie-user_in :
      (random : ℕ → ℕ) (fuel j : ℕ) (s : S) (f : KeyValue) (username other : Bytes)
      → Shows s f
      → j < fuel
      → f session_row (to_string (random j)) ≡ none
      → is_err username ≡ false
      → bytes_eq other active_column ≡ false
      → (s1 : S) × (n : ℕ) × (generate_session_cookie service random fuel s username
          ≡ some (s1, to_string n))
        × (user_in (f session_row (to_string n)) ≡ [])
        × ((get_username_from_session service s1 other).1
            ≡ (if bytes_eq (to_string n) other then username else user_in (f session_row other)))
  unfolding generate_session_cookie
  generate_session_cookie-user_in random fuel j s f username other shows small free plain apart =
      let looked = service.lookup s session_row in
      let shown = serves.lookup_shows s f session_row shows in
      let here = serves.lookup_at s f session_row shows in
      let (n, found, unused) =
        free_sid-some random fuel 0 j looked.0 f looked.1 shown here small
          (subst (λ m. f session_row (to_string (random m)) ≡ none) (omega arith) free) in
      let s1 : S = open_session service looked.0 looked.1 (to_string n) username in
      let opened : Opened s1 f (to_string n) username =
        open_session-Opened looked.0 f looked.1 (to_string n) username shown here
          (digits-apart n) in
      (
        s1,
        n,
        rw (serves.lookup_host s f session_row shows, found, generate_session_cookie) refl,
        unused,
        (get_username-user_in s1 opened.map other opened.shows).0
            ∙ user_in-opened f opened.map (to_string n) username other opened.opened plain apart,
      )
