-- ===== src/Events/Collected.antt =====
-- The loop of GetRange of middleware/base/events.go.
use open_source.Common.{
  ℕ, zero, suc, ◌+◌, ◌*◌, ◌≤◌, ◌<◌, ◌≡◌, refl, ap, sym, subst, ◌∙◌, Bool, true, false, inl, inr,
  if◌then◌else◌, List, [], ◌∷◌, ◌++◌, some, arith, Bool-cases, Option-cases, Text, lookup,
}
use mathlib.Core.Logic.Or
use mathlib.Core.Bool.{Bool-set, true≢false}
use mathlib.Core.Option.{some_inj}
use mathlib.Core.List.{
  Mem, Mem-prop, mem-cons, mem-cons_self, mem-cons_of_mem, not-mem-nil, mem-append, mem-append_left,
  mem-append_right,
}
use open_source.Common.GoTime.{Time, before}
use open_source.Events.Store.{
  Event, Host, FileRead, not_exist, unreadable, contents, read_file, file_name, day, selected,
  from_day, range_loop,
}

pub selected-keeps :
    (keep : Event → Bool) (e : Event) (evs : List Event)
    → keep e ≡ true
    → Mem e evs
    → Mem e (selected keep evs)
unfolding selected
selected-keeps keep e [] k m = m
selected-keeps keep e (ev ∷ evs) k m = elim (Bool-cases (keep ev)) [
  | inl kept ↦ rw kept (
      Or.elim Mem-prop (mem-cons.0 m) (λ same. rw same mem-cons_self)
        (λ later. mem-cons_of_mem ev (selected-keeps keep e evs k later)))
  | inr left_out ↦ rw left_out (
      Or.elim Mem-prop (mem-cons.0 m)
        (λ same. absurd (true≢false (sym k ∙ ap keep same ∙ left_out)))
        (λ later. selected-keeps keep e evs k later))
]

selected-passes :
    (keep : Event → Bool) (e : Event) (evs : List Event) → Mem e (selected keep evs) → keep e ≡ true
unfolding selected
selected-passes keep e [] m = absurd (not-mem-nil m)
selected-passes keep e (ev ∷ evs) m = elim (Bool-cases (keep ev)) [
  | inl kept ↦
      Or.elim (Bool-set (keep e) true) (mem-cons.0 (rw kept at m)) (λ same. ap keep same ∙ kept)
        (λ later. selected-passes keep e evs later)
  | inr left_out ↦ selected-passes keep e evs (rw left_out at m)
]

module _ (host : Host) where
  -- No file is there that cannot be read.
  abbrev pub Readable : (Text → Bool) → Type 0
  Readable fails = (name : Text) → fails name ≡ false

  from_day-some :
      (keep : Event → Bool) (fails : Text → Bool) (name : Text) (files : List (Text × host.Data))
      → Readable fails
      → (evs : List Event) × (from_day host keep (read_file host fails name files) ≡ some evs)
  unfolding read_file from_day
  from_day-some keep fails name files ok = elim (Option-cases (lookup name files)) [
    | inl absent ↦ ([], ground (arith, absent))
    | inr (content, there) ↦ (
      if (host.unmarshal content).1 then [] else selected keep (host.unmarshal content).0,
      ground (arith, there, ok name),
    )
  ]

  from_day-passes :
      (keep : Event → Bool) (e : Event) (r : FileRead host) (evs : List Event)
      → from_day host keep r ≡ some evs
      → Mem e evs
      → keep e ≡ true
  unfolding from_day
  from_day-passes keep e not_exist evs h m =
      absurd (not-mem-nil (subst (Mem e) (some_inj.0 (sym h)) m))
  from_day-passes keep e unreadable evs h m = ground arith
  from_day-passes keep e (contents content) evs h m =
      let (events, failed) = host.unmarshal content in
      elim (Bool-cases failed) [
        | inl broken ↦ absurd (not-mem-nil (subst (Mem e) (some_inj.0 (sym (rw broken at h))) m))
        | inr fine ↦
            selected-passes keep e events (subst (Mem e) (some_inj.0 (sym (rw fine at h))) m)
      ]

  module _ (keep : Event → Bool) (fails : Text → Bool) (ok : Readable fails) (to : Time)
      (files : List (Text × host.Data)) where
    -- The file of the day of `t` adds the event.
    abbrev pub Adds : Event → Time → Type 0
    Adds e t =
        (evs : List Event) × (from_day host keep (read_file host fails (file_name host t) files)
          ≡ some evs)
        × Mem e evs

    -- A loop that starts on `d` with a result ends with one that has what the days add, and no more
    -- than passes the filter.
    pub record Collected (fuel : ℕ) (d : Time) (result l : List Event) : Type 0 where
      pub keeps : (e : Event) → Mem e result → Mem e l
      pub passes :
          ((e : Event) → Mem e result → keep e ≡ true) → (e : Event) → Mem e l → keep e ≡ true
      pub finds : (e : Event) (k : ℕ) → k < fuel → d + k * day ≤ to → Adds e (d + k * day) → Mem e l

    finds-next :
        (fuel : ℕ) (d : Time) (result evs l : List Event)
        → from_day host keep (read_file host fails (file_name host d) files) ≡ some evs
        → Collected fuel (d + day) (result ++ evs) l
        → (e : Event) (k : ℕ) → k < suc fuel
        → d + k * day ≤ to
        → Adds e (d + k * day)
        → Mem e l
    finds-next fuel d result evs l read rest e zero lt le adds =
        let first : d + 0 * day ≡ d = omega arith in
        let (evs', read', m) = subst (Adds e) first adds in
        rest.keeps e (mem-append_right result (subst (Mem e) (some_inj.0 (sym read' ∙ read)) m))
    finds-next fuel d result evs l read rest e (suc k) lt le adds =
        let later : d + suc k * day ≡ d + day + k * day = omega arith in
        rest.finds e k (omega arith) (omega arith) (subst (Adds e) later adds)

    pub range_loop-Collected :
        (fuel : ℕ) (d : Time) (result : List Event)
        → (l : List Event) × (range_loop host fuel keep fails d to files result ≡ some l)
          × Collected fuel d result l
    unfolding range_loop
    range_loop-Collected zero d result = (
      result,
      refl,
      record { keeps = λ e m. m; passes = λ h. h; finds = λ e k lt le adds. absurd (omega arith) },
    )
    range_loop-Collected (suc fuel) d result = elim (Bool-cases (before to d)) [
      | inl past ↦ (
        result,
        rw past refl,
        record {
          keeps = λ e m. m;
          passes = λ h. h;
          finds = λ e k lt le adds. absurd (ground arith);
        },
      )
      | inr due ↦
          let (evs, read) = from_day-some keep fails (file_name host d) files ok in
          let (l, returns, rest) = range_loop-Collected fuel (d + day) (result ++ evs) in
          (
            l,
            rw (range_loop, due, read) returns,
            record {
              keeps = λ e m. rest.keeps e (mem-append_left evs m);
              passes = λ h. rest.passes (λ e m.
                  Or.elim (Bool-set (keep e) true) (mem-append.0 m) (h e) (
                    from_day-passes keep e (read_file host fails (file_name host d) files) evs
                      read));
              finds = finds-next fuel d result evs l read rest;
            },
          )
    ]
