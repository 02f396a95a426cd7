-- ===== src/Examples/Trials.antt =====
-- Examples for the tables of src/testTable.c.
use rn_praktikum.Base.{ℕ, List, take, c_str}
use rn_praktikum.Names.{name_len}
use rn_praktikum.Table.{record_size}
use rn_praktikum.TestTable.{update_record}
use rn_praktikum.TestTable.Message.{test_message, own_table}
use rn_praktikum.TestTable.Search.{IsNamed}
use rn_praktikum.TestTable.Relax.{Answers, Shortens, update_record-Relaxes}

abbrev first_record : List ℕ
first_record = take record_size test_message

alice-IsNamed : IsNamed (take name_len first_record)
unfolding c_str
alice-IsNamed = λ e. cc

update_record-Relaxes_example :
    Answers first_record own_table (update_record first_record own_table)
    × Shortens first_record own_table (update_record first_record own_table)
update_record-Relaxes_example = update_record-Relaxes first_record own_table alice-IsNamed
