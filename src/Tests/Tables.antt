-- ===== src/Tests/Tables.antt =====
-- Examples for the dictionaries.
use spmfilter.Base.{◌≡◌, none, some, if◌then◌else◌, codes, equal}
use spmfilter.Dict
use spmfilter.Dict.{Dict}
use spmfilter.Dict.Valid.{IsValid}
use spmfilter.Dict.Laws.{new-IsValid, dict_set-IsValid, get-dict_set, get-remove}

abbrev one_key : Dict
one_key = Dict.dict_set Dict.new (codes "250") (codes "fine")

one_key-IsValid : IsValid one_key
one_key-IsValid = dict_set-IsValid Dict.new (codes "250") (codes "fine") new-IsValid

dict_set-IsValid_example : IsValid (Dict.dict_set one_key (codes "451") (codes "later"))
dict_set-IsValid_example = dict_set-IsValid one_key (codes "451") (codes "later") one_key-IsValid

get-dict_set_example :
    Dict.get (Dict.dict_set one_key (codes "250") (codes "done")) (codes "250") ≡ (
      if equal (codes "250") (codes "250")
      then some (codes "done")
      else Dict.get one_key (codes "250"))
get-dict_set_example =
    get-dict_set one_key (codes "250") (codes "done") (codes "250") one_key-IsValid

get-remove_example :
    Dict.get (Dict.remove one_key (codes "451")) (codes "250")
    ≡ (if equal (codes "451") (codes "250") then none else Dict.get one_key (codes "250"))
get-remove_example = get-remove one_key (codes "451") (codes "250") one_key-IsValid
