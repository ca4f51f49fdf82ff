-- ===== src/Lib.antt =====
-- Verification of the SnappyData ODBC driver (driver/cpp of the C++ sources, src/driver/cpp).
--
-- The driver implements the ODBC functions (SnappyDriverAPIs.cpp) on three kinds of handles: an
-- environment (SnappyEnvironment) lists its connections, a connection (SnappyConnection) wraps a
-- native connection of the client library, and a statement (SnappyStatement) holds bound
-- parameters and columns, attributes and a cursor of the client library. Each handle keeps its
-- last error (SnappyHandleBase, DriverBase.h); text goes in and out of the application's buffers by
-- StringFunctions. The modules follow these parts:
--
-- Driver       return codes, exceptions and diagnostics: SnappyHandleBase (DriverBase.h, .cpp).
-- Strings      StringFunctions.h and .cpp: restrictLength, copyString, strlen, strcmp, strncmp,
--              strchr, ltrim, rtrim and split. Memory behind a pointer is the list of the units from
--              there on, and an access past its end is `none`.
-- Handles      newEnvironment, freeEnvironment, newConnection, freeConnection,
--              forEachActiveConnection, commit, rollback (SnappyEnvironment.cpp,
--              SnappyConnection.cpp) and SQLEndTran (SnappyDriverAPIs.cpp), over a heap of live
--              objects. The use of a deleted object is `none`. Handles.Reach has the step relation of
--              the histories of calls.
-- Connecting   connect, disconnect, setAttribute and getAttribute of a connection, with connectT,
--              getStringValue and setConnectionAttribute (SnappyConnection.cpp). Connecting.Laws has
--              what is relied on of the native connection. Connecting.Entry has SQLConnect and
--              SQLDriverConnect (SnappyDriverAPIs.cpp).
-- Parameters.Arrays  parameter arrays and SQLExecDirect: updateStatus, bindArrayOfParameters,
--              executeWithArrayOfParams and execute(sqlText) (SnappyStatement.cpp).
-- Diagnostics  getExceptionRecord, handleErrorT and handleDiagFieldT (SnappyEnvironment.cpp),
--              for characters of one byte; Environments: setAttribute and getAttribute.
-- Parameters.Switch  the switch of bindParameter over the C types; what it reads and sets is in
--              Parameters.Values.
-- Output       fillOutput (SnappyStatement.cpp), over the getters for one column.
-- Properties   ConnStringPropertyReader and readProperties (ConnStringPropertyReader.h),
--              IniPropertyReader.h and the lookup of OdbcIniKeys.cpp, for characters of one byte.
-- Types        the type tables of SnappyStatement.cpp: convertTypeToSQLType, convertTypeToCType,
--              convertSQLTypeToCType, convertSQLTypeToType and the check of a C type with an SQL type.
-- Attributes   setAttributeT and getAttributeT of SnappyStatement.cpp, the switch case by case.
-- Parameters   Parameter::set (SnappyStatement.h), addParameter, bindParameter, bindParameters,
--              execute, getParamData, putData and resetParameters (SnappyStatement.cpp).
-- Intervals    the interval cases of bindParameter and fillOutput (SnappyStatement.cpp).
-- Lifecycle    prepare, execute, getMoreResults, closeResultSet, freeStatement (SnappyStatement.cpp):
--              a step relation on the native objects that a statement holds. How bindParameters
--              and executeWithArrayOfParams end is an argument there, see Parameters.
-- Fetch        BatchRowIterator.h, and next, fetchScroll, fillOutputFields,
--              fillOutputFieldsWithArrays, setRowStatus (SnappyStatement.cpp) and handleWarnings
--              (SnappyStatement.h). What is written to the application is a log of fills.
-- Tests        each theorem at an input that meets its hypotheses.
-- Common       Boolean tests, lists and integers over the native numbers.
--
-- A state is a record, an operation a function from a state to the new state and an SqlReturn; an
-- exception of the client library is a value (Outcome), and undefined behaviour of the C++ code is
-- the `none` of an Option. SQLRETURN codes, handle types and ODBC constants stand for the values of
-- the ODBC headers. Sizes of integers: restrictLength has the ranges of its types; SQLLEN is 64
-- bits; the batch size is a uint32_t that is read as an int32_t; the parameter sets are counted by
-- a uint32_t, which never reaches 2^32, so from there on binding an array is `none`; a char is
-- signed, so a delimiter from 128 on is negative and no SQLCHAR equals it.
--
-- Parameters of the model, for code that is not in the repository: the native connection (whether it
-- is open, what its calls do; for Connecting a record Platform with the dynamic loader), the
-- ini file and the key table (Setup), ResultSet::iterator (CursorApi, with CursorLaws
-- for a cursor that runs through a list of rows), StatementAttributes (with AttributesLaws: a getter
-- answers what its setter stored), PreparedStatement::execute, the conversions of client::Utils,
-- executeBatch (Prepared), SQLException and fillRecords (Exceptions), and the getters of Row for a
-- column (Column). Two functions of SnappyStatement.cpp are parameters where the rest needs only what
-- they answer: Fetch takes fillOutput as the result of a fill, and Parameters the switch of
-- bindParameter over the C types as a Conversion, which knows some C types and refuses the others; Output and Parameters.Switch have the ones of the
-- source.
--
-- Loops are recursion on lists, but for some on fuel: read_loop and read, for which
-- read_properties_ends says what is enough, fill_batch is given the size of the array,
-- which next_batch shows to be enough, and the application's loops fetch_all, supply_data and
-- read_records, whose theorems say how many calls are enough.
--
-- Not modelled: the tables of getInfoT and getFunctions, which answer constants; the catalog
-- functions (getTablesT and the like), which hand their arguments to the client library; getDescRec
-- and the column descriptions; the table that OdbcIniKeys::init fills;
-- output parameters, SQLBulkOperations, SQLSetPos, SQLCancel and the cursor names; message texts,
-- logging and locks; the setup library and the installer (SnappyDataODBCSetupInstaller), which
-- are user interface and registry calls.
pub mod Attributes
pub mod Common
pub mod Connecting
pub mod Diagnostics
pub mod Driver
pub mod Environments
pub mod Fetch
pub mod Handles
pub mod Intervals
pub mod Lifecycle
pub mod Output
pub mod Parameters
pub mod Properties
pub mod Strings
pub mod Types
pub mod Tests
