-- ===== src/Frame/Message.antt =====
-- include/sessiongw/frame.hpp: the values of `MessageType`.
use Prim.Native.Nat.{ℕ}

-- A 16-bit value; a cast can also give one that has no name.
abbrev pub MessageType : Type 0
MessageType = ℕ

abbrev pub hello : MessageType
hello = 1

abbrev pub hello_ok : MessageType
hello_ok = 2

abbrev pub ping : MessageType
ping = 3

abbrev pub pong : MessageType
pong = 4

abbrev pub close : MessageType
close = 5

abbrev pub ok : MessageType
ok = 6

abbrev pub error : MessageType
error = 7

abbrev pub describe_table : MessageType
describe_table = 8

abbrev pub describe_table_result : MessageType
describe_table_result = 9

abbrev pub get_table_version : MessageType
get_table_version = 10

abbrev pub get_table_version_result : MessageType
get_table_version_result = 11

abbrev pub open_pushed_query : MessageType
open_pushed_query = 12

abbrev pub open_cursor_result : MessageType
open_cursor_result = 13

abbrev pub fetch : MessageType
fetch = 14

abbrev pub fetch_result : MessageType
fetch_result = 15

abbrev pub close_cursor : MessageType
close_cursor = 16

abbrev pub open_table_scan : MessageType
open_table_scan = 17

abbrev pub open_table_insert : MessageType
open_table_insert = 18

abbrev pub open_table_operation_result : MessageType
open_table_operation_result = 19

abbrev pub insert_rows : MessageType
insert_rows = 20

abbrev pub affected_rows_result : MessageType
affected_rows_result = 21

abbrev pub close_operation : MessageType
close_operation = 22

abbrev pub set_autocommit : MessageType
set_autocommit = 23

abbrev pub commit : MessageType
commit = 24

abbrev pub rollback : MessageType
rollback = 25

abbrev pub open_table_update : MessageType
open_table_update = 26

abbrev pub update_rows : MessageType
update_rows = 27

abbrev pub open_table_delete : MessageType
open_table_delete = 28

abbrev pub delete_rows : MessageType
delete_rows = 29

abbrev pub fetch_positioned_rows : MessageType
fetch_positioned_rows = 30

abbrev pub fetch_native : MessageType
fetch_native = 31

abbrev pub fetch_native_result : MessageType
fetch_native_result = 32

abbrev pub fetch_positioned_rows_native : MessageType
fetch_positioned_rows_native = 33
