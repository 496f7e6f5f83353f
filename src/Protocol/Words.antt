-- ===== src/Protocol/Words.antt =====
-- pkg/protocol/verbs.go, and the kinds of pkg/protocol/appdef.go. The Go types are strings that
-- come from JSON: a constructor for each constant, and `other` for any other text.
use breakerbox.Prelude.{String, Bool, true, false, ◌≡◌, arith, str_eq, eq_iff}

-- `other` is never one of the constants' texts.
pub data Verb : Type 0 where
  start stop restart : Verb
  other : String → Verb

unfoldable pub valid_verb : Verb → Bool
valid_verb Verb.start = true
valid_verb Verb.stop = true
valid_verb Verb.restart = true
valid_verb (Verb.other _) = false

pub data AppStatus : Type 0 where
  running stopped starting backoff errored unknown : AppStatus
  other : String → AppStatus

unfoldable pub status_eq : AppStatus → AppStatus → Bool
status_eq AppStatus.running AppStatus.running = true
status_eq AppStatus.stopped AppStatus.stopped = true
status_eq AppStatus.starting AppStatus.starting = true
status_eq AppStatus.backoff AppStatus.backoff = true
status_eq AppStatus.errored AppStatus.errored = true
status_eq AppStatus.unknown AppStatus.unknown = true
status_eq (AppStatus.other s) (AppStatus.other t) = str_eq s t
status_eq _ _ = false

pub data DesiredState : Type 0 where
  running stopped : DesiredState
  other : String → DesiredState

unfoldable pub desired_eq : DesiredState → DesiredState → Bool
desired_eq DesiredState.running DesiredState.running = true
desired_eq DesiredState.stopped DesiredState.stopped = true
desired_eq (DesiredState.other s) (DesiredState.other t) = str_eq s t
desired_eq _ _ = false

pub data Approval : Type 0 where
  pending approved rejected : Approval
  other : String → Approval

unfoldable pub is_approved : Approval → Bool
is_approved Approval.approved = true
is_approved _ = false

-- `unset` is the empty text.
pub data AppKind : Type 0 where
  unset process docker compose : AppKind
  other : String → AppKind

pub desired_eq-eq : (a b : DesiredState) → desired_eq a b ≡ true → a ≡ b
unfolding desired_eq
desired_eq-eq (DesiredState.other s) (DesiredState.other t) h = ground (arith, eq_iff s t)
desired_eq-eq a b h = ground arith

pub is_approved-eq : (a : Approval) → is_approved a ≡ true → a ≡ Approval.approved
unfolding is_approved
is_approved-eq a h = ground arith
