-- ===== src/Command/Resources.antt =====
-- Which resources a command holds as its run goes on.
use tax_deeds.Command.{
  ◌>>◌, emit, Resource, log_stream, database, object_storage, Event, opened, closed, polling,
  api_listening, worker_listening, drained, waited_for_pipelines, migrating, logged, Run, carry_on,
  ◌>>=◌, deferred,
}
use tax_deeds.Failure.{Result, ok, err}
use tax_deeds.Base.{
  sym, fun_ext, ap, ◌∙◌, ◌≡◌, refl, Bool, true, false, Option, none, some, List, [], ◌∷◌, ◌++◌, all,
  any, if◌then◌else◌,
}

abbrev pub same_resource : Resource → Resource → Bool
same_resource log_stream log_stream = true
same_resource database database = true
same_resource object_storage object_storage = true
same_resource _ _ = false

abbrev pub Held : Type 0
Held = List Resource

abbrev pub holds : Held → Resource → Bool
holds held r = any (same_resource r) held

abbrev pub give_back : Resource → Held → Held
give_back r [] = []
give_back r (q ∷ held) = if same_resource r q then held else q ∷ give_back r held

-- What must be open when an event happens: the poller, the handlers and the pipelines are started and
-- waited for with the database and the object storage, the worker with the database only, since an
-- engine may need no images. What goroutines do after their start is no event.
abbrev pub uses : Event → Held
uses (polling settings) = database ∷ object_storage ∷ []
uses (api_listening server) = database ∷ object_storage ∷ []
uses (worker_listening server) = database ∷ []
uses drained = database ∷ []
uses waited_for_pipelines = database ∷ object_storage ∷ []
uses (migrating m) = database ∷ []
uses (logged what) = log_stream ∷ []
uses _ = []

-- An event on what is held: nothing is opened twice, and only what is held is used or closed.
abbrev pub step : Held → Event → Option Held
step held (opened r) = if holds held r then none else some (r ∷ held)
step held (closed r) = if holds held r then some (give_back r held) else none
step held e = if all (holds held) (uses e) then some held else none

abbrev pub next_held : Option Held → (Held → Option Held) → Option Held
next_held none f = none
next_held (some held) f = f held

abbrev pub account : Held → List Event → Option Held
account held [] = some held
account held (e ∷ events) = next_held (step held e) (λ after. account after events)

next_held_assoc :
    (o : Option Held) (f g : Held → Option Held)
    → next_held (next_held o f) g ≡ next_held o (λ h. next_held (f h) g)
next_held_assoc none f g = refl
next_held_assoc (some h) f g = refl

pub account-append :
    (held : Held) (s t : List Event)
    → account held (s ++ t) ≡ next_held (account held s) (λ after. account after t)
account-append held [] t = refl
account-append held (e ∷ s) t =
    ap (next_held (step held e)) (fun_ext λ after. account-append after s t)
    ∙ sym (next_held_assoc (step held e) (λ after. account after s) (λ after. account after t))

abbrev pub Post : {A : Type 0} → (A → Held → Type 0) → (Held → Type 0) → Result A → Held → Type 0
Post G B (ok a) held = G a held
Post G B (err e) held = B held

-- From what is held at the start the run keeps to the rules, and what it holds at its end meets `G` if
-- it returns a value, and `B` if it returns an error.
pub record Ends {A : Type 0} (held : Held) (m : Run A) (G : A → Held → Type 0) (B : Held → Type 0)
    : Type 0 where
  pub after : Held
  pub accounted : account held m.0 ≡ some after
  pub post : Post G B m.1 after

-- What a deferred call does to what is held.
pub record Closes (middle : Held) (last : List Event) (P : Held → Type 0) : Type 0 where
  pub after : Held
  pub accounted : account middle last ≡ some after
  pub kept : P after

module _ {A : Type 0} {G : A → Held → Type 0} {B : Held → Type 0} where
  pub carried :
      {held middle : Held} (s : List Event) (m : Run A)
      → account held s ≡ some middle
      → Ends middle m G B
      → Ends held (carry_on s m) G B
  carried {held} s (t, r) first e = record {
    after = e.after;
    accounted = account-append held s t ∙ rw first e.accounted;
    post = e.post;
  }

  pub Ends->>= :
      {C : Type 0} {G' : C → Held → Type 0} {held : Held} (m : Run C) (f : C → Run A)
      → Ends held m G' B
      → ((c : C) (middle : Held) → G' c middle → Ends middle (f c) G B)
      → Ends held (m >>= f) G B
  Ends->>= (s, ok c) f e rest = carried s (f c) e.accounted (rest c e.after e.post)
  Ends->>= (s, err x) f e rest = record { after = e.after; accounted = e.accounted; post = e.post }

  pub Ends-deferred :
      {G' : A → Held → Type 0} {B' : Held → Type 0} {held : Held} (last : List Event) (m : Run A)
      → Ends held m G' B'
      → ((a : A) (middle : Held) → G' a middle → Closes middle last (G a))
      → ((middle : Held) → B' middle → Closes middle last B)
      → Ends held (deferred last m) G B
  Ends-deferred {held = held} last (s, ok a) e good bad =
      let c = good a e.after e.post in
      record {
        after = c.after;
        accounted = account-append held s last ∙ rw e.accounted c.accounted;
        post = c.kept;
      }
  Ends-deferred {held = held} last (s, err x) e good bad =
      let c = bad e.after e.post in
      record {
        after = c.after;
        accounted = account-append held s last ∙ rw e.accounted c.accounted;
        post = c.kept;
      }

  pub Ends-emit :
      {held : Held} (middle : Held) (e : Event) (m : Run A)
      → step held e ≡ some middle
      → Ends middle m G B
      → Ends held (emit e >> m) G B
  Ends-emit middle e m first rest = carried (e ∷ []) m (rw first) rest
