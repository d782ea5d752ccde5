-- ===== src/Tests/Streams.antt =====
-- The container of registered streams on concrete streams.
use process_bus.Stream.Goose.{new_goose_source}
use process_bus.Stream.Sv.{new_sv_source}
use process_bus.Stream.Sessions.{take_all, goose_session, sv_session, both_gaps-lost}
use process_bus.Prelude.{
  ◌==◌, ◌++◌, ℕ, ◌<◌, ◌≡◌, ◌≢◌, refl, ap, arith, some, none, [], ◌∷◌, length, if◌then◌else◌,
  consecutive,
}
use process_bus.Stream.Passport.{SvPassport, sv_eq, sv_key}
use process_bus.Container.{
  AppidContainer, empty_container, insert, subscript, assign, find, value_of, size_max,
}
use process_bus.Container.Invariant.{IsValid, empty-IsValid, assign-IsValid}
use process_bus.Container.Assign.{owner, value_of-assign, assign_shadowed}

abbrev first : SvPassport
first = record {
  dmac = 1 ∷ 0x0c ∷ 0xcd ∷ 4 ∷ 0 ∷ 1 ∷ [];
  appid = 0x4001;
  num = 8;
  crev = 1;
  svid = 0x41 ∷ [];
  dst_ip = 0;
}

-- Another stream of the same APPID, as a routable stream beside the L2 one is.
abbrev second : SvPassport
second = record first { dst_ip = 0xefc00101 }

abbrev no_stream : AppidContainer SvPassport ℕ
no_stream = empty_container

abbrev one_stream : AppidContainer SvPassport ℕ
one_stream = assign 0 no_stream first 7

empty_room : length no_stream.values < size_max
unfolding empty_container
empty_room = omega arith

one_stream-IsValid : IsValid one_stream
one_stream-IsValid = assign-IsValid 0 no_stream first 7 empty-IsValid empty_room

assign-IsValid_example : IsValid one_stream
assign-IsValid_example = assign-IsValid 0 no_stream first 7 empty-IsValid empty_room

room : length one_stream.values < size_max
unfolding assign subscript insert empty_container
room = omega arith

value_of-assign_example :
    value_of (assign 0 one_stream second 9) first
    ≡ (if sv_eq (owner one_stream second) first then some 9 else value_of one_stream first)
value_of-assign_example = value_of-assign 0 one_stream second 9 one_stream-IsValid room first

found : value_of one_stream first ≡ some 7
unfolding value_of find assign subscript insert empty_container
found = ground arith

unlike : first ≢ second
unlike e = omega (arith, ap (λ (p : SvPassport). p.dst_ip) e)

assign_shadowed_example :
    (value_of (assign 0 one_stream second 9) second ≡ none)
    × (value_of (assign 0 one_stream second 9) first ≡ some 9)
assign_shadowed_example =
    assign_shadowed 0 one_stream second 9 one_stream-IsValid room first 7 found refl unlike

both_gaps-lost_example :
    ((take_all goose_session (consecutive 5 3 ++ consecutive 10 2) new_goose_source).err_spdu_cnt
      ≡ (if 2 == 0 then 0 else 1))
    × ((take_all sv_session (consecutive 5 3 ++ consecutive 10 2) new_sv_source).err_spdu_cnt
        ≡ (if 2 == 0 then 0 else 1))
both_gaps-lost_example =
    both_gaps-lost new_goose_source new_sv_source 5 2 2 1 refl refl (omega arith) (omega arith)
