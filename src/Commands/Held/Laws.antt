-- ===== src/Commands/Held/Laws.antt =====
-- The shapes of the handlers of src/commands/cmd_list.cpp, cmd_hash.cpp and cmd_set.cpp, as the
-- change that a caller sees.
use gredis.Base.Bytes.{Bytes}
use gredis.Base.Int.{ℤ}
use gredis.Base.{
  ◌≡◌, ◌∙◌, refl, ap, Option, none, some, if◌then◌else◌, Bool-cases, Option-cases, inl, inr,
}
use gredis.Commands.Held.{Kind, get_or_create, read_held, update_held, shrink_held, grow_held}
use gredis.Commands.Text.{wrong_type}
use gredis.Commands.Value.{Value}
use gredis.Protocol.Writer.{error}
use gredis.Storage.Database.Contents.{entry, IsValid, Shows}
use gredis.Storage.Database.Methods.{value_in, lookup-entry}
use gredis.Storage.Database.Overwrite.{
  changed, rewrite-Shows, create-Shows, remove-Shows, changed_again,
}
use gredis.Storage.Database.{Database, lookup_write, write_value, set}

-- what a handler of one type finds at its key
pub data Finding (A : Type 0) : Type 0 where
  missing : Finding A
  other_type : Finding A
  held : A → Option ℤ → Finding A

abbrev pub reply_of : {A : Type 0} → Finding A → Bytes → (A → Bytes) → Bytes
reply_of missing nothing f = nothing
reply_of other_type nothing f = error wrong_type
reply_of (held a d) nothing f = f a

pub reply_of-same :
    {A : Type 0} (o : Finding A) (x y : Bytes) (f g : A → Bytes)
    → x ≡ y
    → ((a : A) → f a ≡ g a)
    → reply_of o x f ≡ reply_of o y g
reply_of-same missing x y f g e h = e
reply_of-same other_type x y f g e h = refl
reply_of-same (held a d) x y f g e h = h a

module _ {Z A : Type 0} (k : Kind Z A) where
  abbrev pub finding : Option (Value Z × Option ℤ) → Finding A
  finding none = missing
  finding (some (v, d)) = elim (k.open_value v) [ none ↦ other_type | some a ↦ held a d ]

  -- what is shown after a change of the value, where there is one; none takes the key away
  abbrev pub changed_held :
      Database (Value Z)
      → Bytes
      → Finding A
      → (A → Option A)
      → ℤ
      → Bytes
      → Option (Value Z × Option ℤ)
  changed_held db key missing g t p = entry db t p
  changed_held db key other_type g t p = entry db t p
  changed_held db key (held a d) g t p =
      changed db key (elim (g a) [ none ↦ none | some x ↦ some (k.wrap x, d) ]) t p

  -- the same, where a missing key gets a value without a deadline
  abbrev pub created_held :
      Database (Value Z) → Bytes → Finding A → (A → A) → ℤ → Bytes → Option (Value Z × Option ℤ)
  created_held db key missing g t p = changed db key (some (k.wrap (g k.fresh), none)) t p
  created_held db key other_type g t p = entry db t p
  created_held db key (held a d) g t p = changed db key (some (k.wrap (g a), d)) t p

  abbrev pub unless_empty : A → Option A
  unless_empty a = if k.has_no_elements a then none else some a

  pub finding-missing : (o : Option (Value Z × Option ℤ)) → o ≡ none → finding o ≡ missing
  finding-missing o e = rw e refl

  pub finding-other :
      (o : Option (Value Z × Option ℤ)) (x : Value Z) (d : Option ℤ)
      → o ≡ some (x, d)
      → k.open_value x ≡ none
      → finding o ≡ other_type
  finding-other o x d e other = rw (e, finding, other) refl

  pub finding-held :
      (o : Option (Value Z × Option ℤ)) (x : Value Z) (d : Option ℤ) (a : A)
      → o ≡ some (x, d)
      → k.open_value x ≡ some a
      → finding o ≡ held a d
  finding-held o x d a e at = rw (e, finding, at) refl

  pub read_held-Shows :
      (db : Database (Value Z)) (key : Bytes) (now : ℤ) (nothing : Bytes) (f : A → Bytes)
      → IsValid db
      → ((read_held k db key now nothing f).0 ≡ reply_of (finding (entry db now key)) nothing f)
        × Shows now (entry db) (read_held k db key now nothing f).1
  unfolding read_held
  read_held-Shows db key now nothing f v =
      let (found, still, _, _) = lookup-entry db key now v in
      elim (Option-cases (entry db now key)) [
        | inl e ↦ rw (finding-missing _ e, found, e, read_held) (refl, still)
        | inr ((x, d), e) ↦ elim (Option-cases (k.open_value x)) [
          | inl other ↦ rw (finding-other _ x d e other, found, e, other, read_held) (refl, still)
          | inr (a, at) ↦ rw (finding-held _ x d a e at, found, e, at, read_held) (refl, still)
        ]
      ]

  -- the value that is there is replaced
  replaced :
      (db r : Database (Value Z)) (key : Bytes) (now : ℤ) (x : Value Z) (a a' : A) (d : Option ℤ)
      → Shows now (entry db) r
      → entry db now key ≡ some (x, d)
      → Shows now (changed db key (some (k.wrap a', d))) (write_value r key (k.wrap a'))
  replaced db r key now x a a' d s e = rewrite-Shows db r key now (k.wrap a') x d s e

  stored :
      (db r : Database (Value Z)) (key : Bytes) (now : ℤ) (a a' : A) (d : Option ℤ)
      (g : A → Option A)
      → g a ≡ some a'
      → Shows now (changed db key (some (k.wrap a', d))) r
      → Shows now (changed_held db key (held a d) g) r
  stored db r key now a a' d g e s = record {
    valid = s.valid;
    shows = λ t p le. s.shows t p le ∙ rw (changed_held, e) refl;
  }

  dropped :
      (db r : Database (Value Z)) (key : Bytes) (now : ℤ) (a : A) (d : Option ℤ) (g : A → Option A)
      → g a ≡ none
      → Shows now (changed db key none) r
      → Shows now (changed_held db key (held a d) g) r
  dropped db r key now a d g e s = record {
    valid = s.valid;
    shows = λ t p le. s.shows t p le ∙ rw (changed_held, e) refl;
  }

  pub update_held-Shows :
      (db : Database (Value Z)) (key : Bytes) (now : ℤ) (nothing : Bytes) (f : A → Bytes × A)
      → IsValid db
      → ((update_held k db key now nothing f).0
          ≡ reply_of (finding (entry db now key)) nothing (λ a. (f a).0))
        × Shows now
            (changed_held db key (finding (entry db now key)) (λ a. some (f a).1))
            (update_held k db key now nothing f).1
  unfolding update_held
  update_held-Shows db key now nothing f v =
      let (found, still, _, _) = lookup-entry db key now v in
      elim (Option-cases (entry db now key)) [
        | inl e ↦ rw (finding-missing _ e, found, e, update_held) (refl, still)
        | inr ((x, d), e) ↦ elim (Option-cases (k.open_value x)) [
          | inl other ↦ rw (finding-other _ x d e other, found, e, other, update_held) (refl, still)
          | inr (a, at) ↦
              rw (finding-held _ x d a e at, found, e, at, update_held)
                (refl, (replaced db _ key now x a (f a).1 d still e))
        ]
      ]

  pub shrink_held-Shows :
      (db : Database (Value Z)) (key : Bytes) (now : ℤ) (nothing : Bytes) (f : A → Bytes × A)
      → IsValid db
      → ((shrink_held k db key now nothing f).0
          ≡ reply_of (finding (entry db now key)) nothing (λ a. (f a).0))
        × Shows now
            (changed_held db key (finding (entry db now key)) (λ a. unless_empty (f a).1))
            (shrink_held k db key now nothing f).1
  unfolding shrink_held
  shrink_held-Shows db key now nothing f v =
      let (_, _, found, still) = lookup-entry db key now v in
      elim (Option-cases (entry db now key)) [
        | inl e ↦ rw (finding-missing _ e, found, e, shrink_held) (refl, still)
        | inr ((x, d), e) ↦ elim (Option-cases (k.open_value x)) [
          | inl other ↦ rw (finding-other _ x d e other, found, e, other, shrink_held) (refl, still)
          | inr (a, at) ↦
              let s = replaced db _ key now x a (f a).1 d still e in
              elim (Bool-cases (k.has_no_elements (f a).1)) [
                | inl gone ↦
                    rw (finding-held _ x d a e at, found, e, at, gone, shrink_held)
                      (
                        refl,
                        dropped db _ key now a d (λ b. unless_empty (f b).1) (rw gone refl)
                            (remove-Shows db _ key now (some (k.wrap (f a).1, d)) s),
                      )
                | inr stays ↦
                    rw (finding-held _ x d a e at, found, e, at, stays, shrink_held)
                      (
                        refl,
                        stored db _ key now a (f a).1 d (λ b. unless_empty (f b).1) (rw stays refl)
                            s,
                      )
              ]
        ]
      ]

  created :
      (db : Database (Value Z)) (key : Bytes) (now : ℤ)
      → (lookup_write db key now).0 ≡ none
      → (lookup_write (set (lookup_write db key now).1 key (k.wrap k.fresh)) key now).0
        ≡ some (k.wrap k.fresh)
      → ((get_or_create k db key now).0 ≡ some k.fresh)
        × ((get_or_create k db key now).1
            ≡ (lookup_write (set (lookup_write db key now).1 key (k.wrap k.fresh)) key now).1)
  unfolding get_or_create
  created db key now found again =
      (rw (found, again, get_or_create) (k.open-wrap k.fresh), rw (found, get_or_create) refl)

  opened :
      (db : Database (Value Z)) (key : Bytes) (now : ℤ) (x : Value Z)
      → (lookup_write db key now).0 ≡ some x
      → ((get_or_create k db key now).0 ≡ k.open_value x)
        × ((get_or_create k db key now).1 ≡ (lookup_write db key now).1)
  unfolding get_or_create
  opened db key now x found = (rw (found, get_or_create) refl, rw (found, get_or_create) refl)

  pub grow_held-Shows :
      (db : Database (Value Z)) (key : Bytes) (now : ℤ) (f : A → Bytes × A)
      → IsValid db
      → ((grow_held k db key now f).0
          ≡ reply_of (finding (entry db now key)) (f k.fresh).0 (λ a. (f a).0))
        × Shows now
            (created_held db key (finding (entry db now key)) (λ a. (f a).1))
            (grow_held k db key now f).1
  unfolding grow_held
  grow_held-Shows db key now f v =
      let (_, _, found, still) = lookup-entry db key now v in
      elim (Option-cases (entry db now key)) [
        | inl e ↦
            let (again, here, s, w) =
              create-Shows db (lookup_write db key now).1 key now (k.wrap k.fresh) still in
            let m = rewrite-Shows _ _ key now (k.wrap (f k.fresh).1) (k.wrap k.fresh) none s here in
            let (made, at_db) = created db key now (found ∙ ap value_in e) again in
            rw (finding-missing _ e, made, at_db, grow_held)
              (
                refl,
                changed_again db _ _ key now (some (k.wrap k.fresh, none))
                    (some (k.wrap (f k.fresh).1, none)) w m,
              )
        | inr ((x, d), e) ↦
            let (made, at_db) = opened db key now x (found ∙ ap value_in e) in
            elim (Option-cases (k.open_value x)) [
              | inl other ↦
                  rw (finding-other _ x d e other, made, other, at_db, grow_held) (refl, still)
              | inr (a, at) ↦
                  rw (finding-held _ x d a e at, made, at, at_db, grow_held)
                    (refl, replaced db _ key now x a (f a).1 d still e)
            ]
      ]

  -- the same change, told otherwise
  pub created_held-same :
      (db r : Database (Value Z)) (key : Bytes) (now : ℤ) (o : Finding A) (g g' : A → A)
      → ((a : A) → g a ≡ g' a)
      → Shows now (created_held db key o g) r
      → Shows now (created_held db key o g') r
  created_held-same db r key now o g g' h s = record {
    valid = s.valid;
    shows = λ t p le. s.shows t p le ∙ same o t p;
  }
    where
      same :
          (o : Finding A) (t : ℤ) (p : Bytes)
          → created_held db key o g t p ≡ created_held db key o g' t p
      same missing t p = ap (λ a. changed db key (some (k.wrap a, none)) t p) (h k.fresh)
      same other_type t p = refl
      same (held a d) t p = ap (λ b. changed db key (some (k.wrap b, d)) t p) (h a)

  pub changed_held-same :
      (db r : Database (Value Z)) (key : Bytes) (now : ℤ) (o : Finding A) (g g' : A → Option A)
      → ((a : A) → g a ≡ g' a)
      → Shows now (changed_held db key o g) r
      → Shows now (changed_held db key o g') r
  changed_held-same db r key now o g g' h s = record {
    valid = s.valid;
    shows = λ t p le. s.shows t p le ∙ same o t p;
  }
    where
      same :
          (o : Finding A) (t : ℤ) (p : Bytes)
          → changed_held db key o g t p ≡ changed_held db key o g' t p
      same missing t p = refl
      same other_type t p = refl
      same (held a d) t p = rw (changed_held, h a) refl

  -- what a handler starts from
  abbrev pub held_or_fresh : Finding A → A
  held_or_fresh missing = k.fresh
  held_or_fresh other_type = k.fresh
  held_or_fresh (held a d) = a

  pub reply_of-there :
      (o : Finding A) (nothing : Bytes) (f : A → Bytes)
      → reply_of o nothing f ≡ reply_of o nothing (λ _. f (held_or_fresh o))
  reply_of-there missing nothing f = refl
  reply_of-there other_type nothing f = refl
  reply_of-there (held a d) nothing f = refl

  pub reply_of-grown :
      (o : Finding A) (f : A → Bytes)
      → reply_of o (f k.fresh) f ≡ reply_of o (f (held_or_fresh o)) (λ _. f (held_or_fresh o))
  reply_of-grown missing f = refl
  reply_of-grown other_type f = refl
  reply_of-grown (held a d) f = refl

  pub created_held-there :
      (db r : Database (Value Z)) (key : Bytes) (now : ℤ) (o : Finding A) (g : A → A)
      → Shows now (created_held db key o g) r
      → Shows now (created_held db key o (λ _. g (held_or_fresh o))) r
  created_held-there db r key now missing g s = s
  created_held-there db r key now other_type g s = s
  created_held-there db r key now (held a d) g s = s

  pub changed_held-there :
      (db r : Database (Value Z)) (key : Bytes) (now : ℤ) (o : Finding A) (g : A → Option A)
      → Shows now (changed_held db key o g) r
      → Shows now (changed_held db key o (λ _. g (held_or_fresh o))) r
  changed_held-there db r key now missing g s = s
  changed_held-there db r key now other_type g s = s
  changed_held-there db r key now (held a d) g s = s
