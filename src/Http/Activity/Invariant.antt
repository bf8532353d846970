-- ===== src/Http/Activity/Invariant.antt =====
-- The invariant of http_activity.go under every order of requests, bindings and session ends.
use mmmcp.Base.{
  ℕ, suc, ◌+◌, ◌-◌, ◌≡◌, ◌≢◌, ◌<◌, refl, sym, ap, ◌∙◌, inl, inr, if◌then◌else◌, ◌==◌, Bool-cases,
  Option-cases, Option, none, some, List, [], ◌∷◌, length, Text, text_eq_iff, text_keys, lookup,
  lookup-insert, lookup-delete, In, arith,
}
use mmmcp.Http.Activity.{Session, Activity, active_of, begin, end, bind, is_session, watch_ends}
use mmmcp.Http.Activity.System.{
  System, initial, count, unwatch, after_bind, IsKnown, Step, begins, ends, binds, watch_over,
  Reach, start, next,
}

-- What the map of counts holds for so many requests.
abbrev pub entry : ℕ → Option ℕ
entry n = if n == 0 then none else some n

pub record Inv (y : System) : Type 0 where
  pub counted : (id : Text) → lookup id y.activity.active ≡ entry (y.inflight id)
  pub watched : y.activity.watchers ≡ length y.watching
  pub registered :
      (id : Text) (s : Session)
      → lookup id y.activity.sessions ≡ some s
      → (s.id ≡ id) × In s y.watching
  pub identified : (p s : Session) → In p y.watching → In s y.watching → p.handle ≡ s.handle → p ≡ s

begin-counted :
    (id j : Text) (a : Activity) (inflight : Text → ℕ)
    → id ≢ []
    → ((k : Text) → lookup k a.active ≡ entry (inflight k))
    → lookup j (begin id a).0.active ≡ entry (count id (inflight id + 1) inflight j)
unfolding begin active_of count
begin-counted id j a inflight ne h =
    ground (arith, h id, h j, lookup-insert id j (inflight id + 1) a.active, text_eq_iff id j)

end-counted :
    (id j : Text) (n : ℕ) (a : Activity) (inflight : Text → ℕ)
    → id ≢ []
    → inflight id ≡ suc n
    → ((k : Text) → lookup k a.active ≡ entry (inflight k))
    → lookup j (end id a).0.active ≡ entry (count id n inflight j)
unfolding end active_of count
end-counted id j n a inflight ne e h =
    ground (
      arith,
      h id,
      h j,
      lookup-insert id j n a.active,
      lookup-delete id j a.active,
      text_eq_iff id j,
    )

IsKnown-In :
    (s p : Session) (watching : List Session)
    → IsKnown s watching
    → In p watching
    → p.handle ≡ s.handle
    → p ≡ s
IsKnown-In s p [] k i e = elim i [ ]
IsKnown-In s p (x ∷ xs) k (inl q) e = ground arith
IsKnown-In s p (x ∷ xs) k (inr q) e = IsKnown-In s p xs k.1 q e

In-unwatch :
    (s p : Session) (watching : List Session)
    → In p watching
    → p.handle ≢ s.handle
    → In p (unwatch s watching)
unfolding unwatch
In-unwatch s p [] i ne = i
In-unwatch s p (x ∷ xs) (inl q) ne = elim (Bool-cases (x.handle == s.handle)) [
  | inl w ↦ absurd (ne (ap (λ t. t.handle) (sym q) ∙ ground arith))
  | inr w ↦ rw (w, unwatch) (inl q)
]
In-unwatch s p (x ∷ xs) (inr q) ne = elim (Bool-cases (x.handle == s.handle)) [
  | inl w ↦ rw (w, unwatch) q
  | inr w ↦ rw (w, unwatch) (inr (In-unwatch s p xs q ne))
]

In-length : (s : Session) (watching : List Session) → In s watching → 0 < length watching
In-length s [] i = elim i [ ]
In-length s (x ∷ xs) i = omega arith

length-unwatch :
    (s : Session) (watching : List Session)
    → In s watching
    → length (unwatch s watching) ≡ length watching - 1
unfolding unwatch
length-unwatch s [] i = elim i [ ]
length-unwatch s (x ∷ xs) (inl q) = ground arith
length-unwatch s (x ∷ xs) (inr q) = ground (arith, length-unwatch s xs q, In-length s xs q)

bind-registered :
    (y : System) (s : Session) (id : Text) (p : Session)
    → IsKnown s y.watching
    → Inv y
    → lookup id (after_bind y s (bind (some s) y.activity)).activity.sessions ≡ some p
    → (p.id ≡ id) × In p (after_bind y s (bind (some s) y.activity)).watching
unfolding bind after_bind is_session
bind-registered y s id p k v h = elim (Option-cases (lookup s.id y.activity.sessions)) [
  | inl q ↦
      ground
        (arith, v.registered id p, lookup-insert s.id id s y.activity.sessions, text_eq_iff s.id id)
  | inr (o, q) ↦ ground (
    arith,
    v.registered id p,
    v.registered s.id o,
    lookup-insert s.id id s y.activity.sessions,
    text_eq_iff s.id id,
    IsKnown-In s o y.watching k,
  )
]

unwatch-In : (s p : Session) (watching : List Session) → In p (unwatch s watching) → In p watching
unfolding unwatch
unwatch-In s p [] i = i
unwatch-In s p (x ∷ xs) i = ground (arith, unwatch-In s p xs)

-- Handles still tell the watched sessions apart when a known one is bound.
bind-identified :
    (y : System) (s p t : Session)
    → IsKnown s y.watching
    → Inv y
    → In p (after_bind y s (bind (some s) y.activity)).watching
    → In t (after_bind y s (bind (some s) y.activity)).watching
    → p.handle ≡ t.handle
    → p ≡ t
unfolding bind after_bind
bind-identified y s p t k v i j e =
    ground (arith, v.identified p t, IsKnown-In s p y.watching k, IsKnown-In s t y.watching k)

bind-Inv :
    (y : System) (s : Session)
    → IsKnown s y.watching
    → Inv y
    → Inv (after_bind y s (bind (some s) y.activity))
unfolding bind after_bind
bind-Inv y s k v = record {
  counted = λ id. ground (arith, v.counted id);
  watched = ground (arith, v.watched);
  registered = λ id p h. bind-registered y s id p k v h;
  identified = λ p t i j e. bind-identified y s p t k v i j e;
}

-- The session whose watcher ends is registered no more.
watch_ends-session : (s : Session) (a : Activity) → lookup s.id (watch_ends s a).sessions ≢ some s
unfolding watch_ends is_session
watch_ends-session s a h = ground (arith, lookup-delete s.id s.id a.sessions, text_eq_iff s.id s.id)

watch_ends-kept :
    (s p : Session) (id : Text) (a : Activity)
    → lookup id (watch_ends s a).sessions ≡ some p
    → lookup id a.sessions ≡ some p
unfolding watch_ends
watch_ends-kept s p id a h = ground (arith, lookup-delete s.id id a.sessions)

watch_ends-registered :
    (y : System) (s : Session) (id : Text) (p : Session)
    → In s y.watching
    → Inv y
    → lookup id (watch_ends s y.activity).sessions ≡ some p
    → (p.id ≡ id) × In p (unwatch s y.watching)
watch_ends-registered y s id p i v h =
    let (named, watched) = v.registered id p (watch_ends-kept s p id y.activity h) in
    (
      named,
      In-unwatch s p y.watching watched (λ e.
          let same : p ≡ s = v.identified p s watched i e in
          watch_ends-session s y.activity (ground arith)),
    )

watch_ends-Inv :
    (y : System) (s : Session)
    → In s y.watching
    → Inv y
    → Inv (record y { activity = watch_ends s y.activity; watching = unwatch s y.watching })
unfolding watch_ends
watch_ends-Inv y s i v = record {
  counted = v.counted;
  watched = ap (λ n. n - 1) v.watched ∙ sym (length-unwatch s y.watching i);
  registered = λ id p h. watch_ends-registered y s id p i v h;
  identified =
      λ p t k j e. v.identified p t (unwatch-In s p y.watching k) (unwatch-In s t y.watching j) e;
}

begin-rest :
    (id : Text) (a : Activity)
    → ((begin id a).0.watchers ≡ a.watchers) × ((begin id a).0.sessions ≡ a.sessions)
unfolding begin
begin-rest id a = ground arith

end-rest :
    (id : Text) (a : Activity)
    → ((end id a).0.watchers ≡ a.watchers) × ((end id a).0.sessions ≡ a.sessions)
unfolding end
end-rest id a = ground arith

pub Step-keeps-Inv : {y z : System} → Step y z → Inv y → Inv z
Step-keeps-Inv (begins y id ne) v = record {
  counted = λ j. begin-counted id j y.activity y.inflight ne v.counted;
  watched = (begin-rest id y.activity).0 ∙ v.watched;
  registered = λ j s h. v.registered j s (ap (lookup j) (sym (begin-rest id y.activity).1) ∙ h);
  identified = v.identified;
}
Step-keeps-Inv (ends y id n ne e) v = record {
  counted = λ j. end-counted id j n y.activity y.inflight ne e v.counted;
  watched = (end-rest id y.activity).0 ∙ v.watched;
  registered = λ j s h. v.registered j s (ap (lookup j) (sym (end-rest id y.activity).1) ∙ h);
  identified = v.identified;
}
Step-keeps-Inv (binds y s k) v = bind-Inv y s k v
Step-keeps-Inv (watch_over y s i) v = watch_ends-Inv y s i v

initial-holds : Inv initial
unfolding lookup
initial-holds = record {
  counted = λ id. refl;
  watched = refl;
  registered = λ id s h. cc;
  identified = λ p s i j e. elim i [ ];
}

pub Reach-holds : {y : System} → Reach y → Inv y
Reach-holds start = initial-holds
Reach-holds (next r st) = Step-keeps-Inv st (Reach-holds r)
