-- ===== src/Paths/Tests.antt =====
-- Tests of the paths.
use gospidertrap.Common.{
  ◌≡◌, ◌↔◌, refl, false, none, some, List, Text, codes, text_eq, ◌++◌, Lacks, arith,
}
use gospidertrap.Strings.{split, has_prefix}
use gospidertrap.Paths.Own.{own_files_accepted}
use gospidertrap.Paths.Inside.{LiesIn, accepted_iff_inside}
use gospidertrap.Paths.{
  dot_dot, or_dot, push, push_all, elements, join_elements, clean, join, abs, way, rel,
  validate_data_dir_path,
}

clean_test : clean (codes "/a/./b/../../../c//d/") ≡ codes "/c/d"
unfolding clean elements push_all push join_elements split has_prefix text_eq
clean_test = refl

clean_relative : clean (codes "a/../../b") ≡ codes "../b"
unfolding clean elements push_all push join_elements split has_prefix text_eq
clean_relative = refl

rel_test : rel (codes "/a/b") (codes "/a/c/d") ≡ codes "../c/d"
unfolding rel elements way push_all push join_elements split has_prefix text_eq
rel_test = refl

outside :
    validate_data_dir_path (some (codes "/srv")) (codes "data") (codes "data/../x")
    ≡ some (codes "file path is outside data directory: " ++ codes "data/../x")
unfolding validate_data_dir_path abs join clean rel elements way push_all push join_elements split
    has_prefix text_eq
outside = refl

accepted_iff_inside_example :
    (validate_data_dir_path (some (codes "/srv")) (codes "data") (codes "data/stats.json") ≡ none)
    ↔ ((rest : List Text) × LiesIn (codes "/srv") (codes "data") (codes "data/stats.json") rest
        × (has_prefix (or_dot (join_elements rest)) dot_dot ≡ false))
accepted_iff_inside_example =
    accepted_iff_inside (codes "/srv") (codes "data") (codes "data/stats.json")
      (unfold has_prefix in refl)

inside :
    validate_data_dir_path (some (codes "/srv")) (codes "data") (codes "data/stats.json") ≡ none
unfolding validate_data_dir_path abs join clean rel elements way push_all push join_elements split
    has_prefix text_eq
inside = refl

own_files_accepted_example :
    validate_data_dir_path
      (some (codes "/srv"))
      (codes "../data")
      (join (codes "../data") (codes "stats.json"))
    ≡ none
own_files_accepted_example =
    own_files_accepted (codes "/srv") (codes "../data") (codes "stats.json")
      (unfold has_prefix in refl) (λ e. cc) (λ e. cc) (λ e. cc) (unfold has_prefix in refl) no_slash
  where
    no_slash : Lacks b'/' (codes "stats.json")
    no_slash = ground arith
