-- ===== src/ApiClient/Answers.antt =====
-- The response interceptor over any sequence of events: what becomes of the callers, and of the one
-- refresh that they share.
use affiliate_platform_api.Prelude.{
  List, Option, Option-cases, String, [], arith, false, if◌then◌else◌, inl, inr, none, refl, some,
  true, ℕ, ◌+◌, ◌++◌, ◌=?◌, ◌≡◌, ◌∷◌, ap₂, ◌⊎◌, ◌∙◌, suc,
}
use affiliate_platform_api.Session.{Session}
use affiliate_platform_api.ApiClient.{
  ApiError, Client, Effect, Failure, Waiter, fail, give_up, on_refresh_settled, post_refresh,
  redirect, redirect_to_login, reject, reject_other, resend, resume, wake, settle, perform_refresh,
}

-- A request fails, or the refresh is answered.
pub data Event : Type 0 where
  failed : ℕ → Failure → Event
  settled : Option (String × String) → Event

-- The answers that the caller of a promise gets: a rejection, or its request sent again.
abbrev pub answers : ℕ → List Effect → ℕ
answers p [] = 0
answers p (reject q e ∷ es) = (if p =? q then 1 else 0) + answers p es
answers p (reject_other q ∷ es) = (if p =? q then 1 else 0) + answers p es
answers p (resend q r ∷ es) = (if p =? q then 1 else 0) + answers p es
answers p (_ ∷ es) = answers p es

abbrev pub waits : ℕ → List Waiter → ℕ
waits p [] = 0
waits p (w ∷ ws) = (if p =? w.promise then 1 else 0) + waits p ws

abbrev pub posts : List Effect → ℕ
posts [] = 0
posts (post_refresh t ∷ es) = suc (posts es)
posts (_ ∷ es) = posts es

pub answers-append :
    (p : ℕ) (xs ys : List Effect) → answers p (xs ++ ys) ≡ answers p xs + answers p ys
answers-append p [] ys = omega arith
answers-append p (reject q e ∷ es) ys = omega (arith, answers-append p es ys)
answers-append p (reject_other q ∷ es) ys = omega (arith, answers-append p es ys)
answers-append p (resend q r ∷ es) ys = omega (arith, answers-append p es ys)
answers-append p (post_refresh t ∷ es) ys = answers-append p es ys
answers-append p (redirect_to_login ∷ es) ys = answers-append p es ys

pub waits-append : (p : ℕ) (xs ys : List Waiter) → waits p (xs ++ ys) ≡ waits p xs + waits p ys
waits-append p [] ys = omega arith
waits-append p (w ∷ ws) ys = omega (arith, waits-append p ws ys)

pub posts-append : (xs ys : List Effect) → posts (xs ++ ys) ≡ posts xs + posts ys
posts-append [] ys = omega arith
posts-append (reject q e ∷ es) ys = posts-append es ys
posts-append (reject_other q ∷ es) ys = posts-append es ys
posts-append (resend q r ∷ es) ys = posts-append es ys
posts-append (post_refresh t ∷ es) ys = omega (arith, posts-append es ys)
posts-append (redirect_to_login ∷ es) ys = posts-append es ys

-- Callers wait only while a refresh is under way.
abbrev pub IsIdleOrRefreshing : Client → Type 0
IsIdleOrRefreshing c = (c.refreshing ≡ true) ⊎ (c.waiting ≡ [])

pub answers-give_up :
    (p q : ℕ) (e : ApiError) (c : Client) → answers p (give_up q e c).1 ≡ (if p =? q then 1 else 0)
unfolding give_up
answers-give_up p q e c = ground (arith, answers-append p (redirect c.session) (reject q e ∷ []))

pub posts-give_up : (q : ℕ) (e : ApiError) (c : Client) → posts (give_up q e c).1 ≡ 0
unfolding give_up
posts-give_up q e c = ground (arith, posts-append (redirect c.session) (reject q e ∷ []))

answers-wake :
    (next : Waiter → Client → Client × List Effect)
    → ((p : ℕ) (w : Waiter) (c : Client)
        → answers p (next w c).1 ≡ (if p =? w.promise then 1 else 0))
    → (p : ℕ) (ws : List Waiter) (c : Client) → answers p (wake next ws c).1 ≡ waits p ws
unfolding wake
answers-wake next one p [] c = refl
answers-wake next one p (w ∷ ws) c =
    answers-append p (next w c).1 (wake next ws (next w c).0).1
    ∙ ap₂ ◌+◌ (one p w c) (answers-wake next one p ws (next w c).0)

waiting-wake :
    (next : Waiter → Client → Client × List Effect)
    → ((w : Waiter) (c : Client)
        → ((next w c).0.waiting ≡ c.waiting)
          × ((next w c).0.refreshing ≡ c.refreshing)
          × (posts (next w c).1 ≡ 0))
    → (ws : List Waiter) (c : Client)
    → ((wake next ws c).0.waiting ≡ c.waiting)
      × ((wake next ws c).0.refreshing ≡ c.refreshing)
      × (posts (wake next ws c).1 ≡ 0)
unfolding wake
waiting-wake next keep [] c = (refl, refl, refl)
waiting-wake next keep (w ∷ ws) c =
    let (k, r, n) = keep w c in
    let (k', r', n') = waiting-wake next keep ws (next w c).0 in
    (k' ∙ k, r' ∙ r, posts-append (next w c).1 (wake next ws (next w c).0).1 ∙ ap₂ ◌+◌ n n')

answers-resume :
    (p : ℕ) (w : Waiter) (c : Client) → answers p (resume w c).1 ≡ (if p =? w.promise then 1 else 0)
unfolding resume
answers-resume p w c = elim (Option-cases w.original) [
  | inl gone ↦ rw gone (answers-give_up p w.promise w.error c)
  | inr (r, there) ↦ rw there (omega arith)
]

keep-resume :
    (w : Waiter) (c : Client)
    → ((resume w c).0.waiting ≡ c.waiting)
      × ((resume w c).0.refreshing ≡ c.refreshing)
      × (posts (resume w c).1 ≡ 0)
unfolding resume give_up
keep-resume w c = elim (Option-cases w.original) [
  | inl gone ↦ rw gone (refl, refl, unfold give_up in posts-give_up w.promise w.error c)
  | inr (r, there) ↦ rw there (refl, refl, refl)
]

keep-fail :
    (w : Waiter) (c : Client)
    → ((fail w c).0.waiting ≡ c.waiting)
      × ((fail w c).0.refreshing ≡ c.refreshing)
      × (posts (fail w c).1 ≡ 0)
unfolding fail
keep-fail w c = (refl, refl, posts-give_up w.promise w.error c)

answers-fail :
    (p : ℕ) (w : Waiter) (c : Client) → answers p (fail w c).1 ≡ (if p =? w.promise then 1 else 0)
unfolding fail
answers-fail p w c = answers-give_up p w.promise w.error c

-- What the answer to a refresh does to the callers, whichever answer it is.
abbrev pub Served : Client → Client × List Effect → Type 0
Served c (c', done) =
    ((p : ℕ) → answers p done ≡ waits p c.waiting)
    × (c'.waiting ≡ [])
    × (c'.refreshing ≡ false)
    × (posts done ≡ 0)

wake-Served :
    (next : Waiter → Client → Client × List Effect)
    → ((p : ℕ) (w : Waiter) (c : Client)
        → answers p (next w c).1 ≡ (if p =? w.promise then 1 else 0))
    → ((w : Waiter) (c : Client)
        → ((next w c).0.waiting ≡ c.waiting)
          × ((next w c).0.refreshing ≡ c.refreshing)
          × (posts (next w c).1 ≡ 0))
    → (c : Client) (s : Session)
    → Served c (wake next c.waiting (record { session = s; refreshing = false; waiting = [] }))
wake-Served next one keep c s =
    let idle : Client = record { session = s; refreshing = false; waiting = [] } in
    let (k, r, n) = waiting-wake next keep c.waiting idle in
    ((λ p. answers-wake next one p c.waiting idle), k, r, n)

settle-Served : (stored : Option Session) (c : Client) → Served c (settle stored c)
settle-Served none c = wake-Served fail answers-fail keep-fail c c.session
settle-Served (some s) c = wake-Served resume answers-resume keep-resume c s

pub on_refresh_settled-Served :
    (tokens : Option (String × String)) (c : Client) → Served c (on_refresh_settled tokens c)
unfolding on_refresh_settled
on_refresh_settled-Served tokens c = settle-Served (perform_refresh tokens c.session) c
